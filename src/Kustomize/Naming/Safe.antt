-- ===== src/Kustomize/Naming/Safe.antt =====
-- What a sanitised name cannot hold.
use crane_lib.Base.{ℕ, String, List, [], ◌∷◌, All, ◌≢◌, arith}
use crane_lib.Base.{string_eq}
use crane_lib.Strings.{trim}
use crane_lib.Strings.Laws.{Lacks, replace_all-Lacks, replace_all-Lacks_other}
use crane_lib.Strings.Trim.{trim-Lacks, IsTrimmed, trim-IsTrimmed}
use crane_lib.Kustomize.Naming.{dash_all, sanitize_filename, unsafe_characters}

abbrev pub LacksAll : List ℕ → String → Type 0
LacksAll ns s = All (λ n. Lacks n s) ns

dash_all-Lacks_other :
    (cs : List ℕ) (n : ℕ) (s : String) → n ≢ b'-' → Lacks n s → Lacks n (dash_all cs s)
unfolding dash_all
dash_all-Lacks_other [] n s k h = h
dash_all-Lacks_other (c ∷ cs) n s k h =
    dash_all-Lacks_other cs n _ k (replace_all-Lacks_other n c "-" s (omega arith) h)

-- Every replaced character is gone, if none of them is the dash.
pub dash_all-Lacks :
    (cs : List ℕ) (s : String) → All (λ c. c ≢ b'-') cs → LacksAll cs (dash_all cs s)
unfolding dash_all
dash_all-Lacks [] s h = tt
dash_all-Lacks (c ∷ cs) s (k, h) =
    (dash_all-Lacks_other cs c _ k (replace_all-Lacks c "-" s (omega arith)), dash_all-Lacks cs _ h)

trim-LacksAll :
    (cutset : String) (cs : List ℕ) (s : String) → LacksAll cs s → LacksAll cs (trim cutset s)
trim-LacksAll cutset [] s h = tt
trim-LacksAll cutset (c ∷ cs) s (k, h) = (trim-Lacks cutset c s k, trim-LacksAll cutset cs s h)

-- A sanitised file name holds none of the unsafe characters, and begins and ends with neither a
-- dot nor a space.
pub sanitize_filename_safe :
    (filename : String)
    → LacksAll unsafe_characters (sanitize_filename filename)
      × IsTrimmed ". " (sanitize_filename filename)
unfolding sanitize_filename
sanitize_filename_safe filename = (
  trim-LacksAll ". " unsafe_characters _ (dash_all-Lacks unsafe_characters filename (omega arith)),
  trim-IsTrimmed ". " _,
)
