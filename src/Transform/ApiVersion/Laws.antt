-- ===== src/Transform/ApiVersion/Laws.antt =====
-- What the two functions make of an apiVersion in ASCII.
use Prim.Native.Char.{Char, code, len_utf8}
use Prim.Native.String.{len, ◌++◌ as ◌<>◌}
use text.Mathlib.TextLemmas.{nil-append, cons-append}
use text.Mathlib.TextLemmas as Text
use crane_lib.Base.{ℕ, ◌+◌, ◌-◌, String, true, false, List, [], ◌∷◌, ◌++◌, eqb}
use crane_lib.Base.{◌==◌, ==_ne, ==_refl, string_eq, ok, panic, ◌≡◌, ◌≢◌, refl, ap, sym, ◌∙◌, arith}
use crane_lib.Base.{Bool-cases, inl, inr, keep, append-nil, append_assoc, not}
use crane_lib.Strings.Ascii.{IsAscii, len_utf8_ascii, len-nil, len-cons}
use crane_lib.Strings.{split, split_from}
use crane_lib.Strings.Laws.{Lacks, split-append, split_of_Lacks}
use crane_lib.Transform.ApiVersion.{close, split_loop, split_api_version, group_and_version}
use crane_lib.Transform.ApiVersion.{parse_api_version}

-- The parts that are not empty.
abbrev pub non_empty : List String → List String
non_empty = keep (λ s. not (s == ""))

close-append :
    (result : List String) (current : String) (rest : List String)
    → close result current ++ non_empty rest ≡ result ++ non_empty (current ∷ rest)
unfolding close
close-append result current rest = elim (Bool-cases (current == "")) [
  | inl blank ↦ rw blank
  | inr full ↦ rw full (append_assoc result (current ∷ []) (non_empty rest))
]

close_lem :
    (result : List String) (current : String)
    → close result current ≡ result ++ non_empty (current ∷ [])
close_lem result current = sym (append-nil _) ∙ close-append result current []

close-blank : (result : List String) → close result "" ≡ result
unfolding close string_eq
close-blank result = refl

-- The last round of the loop, and any other.
split_loop-last :
    (total i : ℕ) (result : List String) (current : String) (c : Char)
    → total ≡ i + 1
    → split_loop total i result current (String.◌∷◌ c "")
      ≡ result ++ non_empty (split_from b'/' current (String.◌∷◌ c ""))
unfolding split_loop split_from
split_loop-last total i result current c e =
    rw (let at_end : eqb i (total - 1) ≡ true = ground arith in at_end)
      (elim (Bool-cases (eqb (code c) b'/')) [
        | inl slash ↦ rw slash (
            close-blank (close result current)
            ∙ close_lem result current
            ∙ rw (==_refl {A = String} ""))
        | inr plain ↦ rw plain (close_lem result (current <> String.◌∷◌ c ""))
      ])

split_loop-lem :
    (s : String) (total i : ℕ) (result : List String) (current : String) (c : Char)
    → total ≡ i + len (String.◌∷◌ c s)
    → IsAscii (String.◌∷◌ c s)
    → split_loop total i result current (String.◌∷◌ c s)
      ≡ result ++ non_empty (split_from b'/' current (String.◌∷◌ c s))
unfolding split_loop split_from
split_loop-lem String.[] total i result current c e h =
    split_loop-last total i result current c
      (omega (arith, len-cons c "", len_utf8_ascii c h.0, len-nil))
split_loop-lem (String.◌∷◌ d s) total i result current c e (k, h) =
    let width : len_utf8 c ≡ 1 = len_utf8_ascii c k in
    let rest : len (String.◌∷◌ c (String.◌∷◌ d s)) ≡ len_utf8 c + len (String.◌∷◌ d s) =
      len-cons c (String.◌∷◌ d s) in
    let more : len (String.◌∷◌ d s) ≡ 1 + len s =
      len-cons d s ∙ ap (λ (n : ℕ). n + len s) (len_utf8_ascii d h.0) in
    let inside : eqb i (total - 1) ≡ false = ground arith in
    let ih = λ (r : List String) (cur : String).
      split_loop-lem s total (i + len_utf8 c) r cur d (omega arith) h in
    rw (inside, split_loop)
      (elim (Bool-cases (eqb (code c) b'/')) [
        | inl slash ↦ rw slash (ih (close result current) "" ∙ close-append result current _)
        | inr plain ↦ rw plain (ih result (current <> String.◌∷◌ c ""))
      ])

-- In ASCII the hand-written loop is strings.Split without the empty parts.
pub split_api_version_lem :
    (s : String) → IsAscii s → split_api_version s ≡ non_empty (split b'/' s)
unfolding split_api_version split
split_api_version_lem String.[] h = rw (==_refl {A = String} "")
split_api_version_lem (String.◌∷◌ c s) h = split_loop-lem s _ 0 [] "" c (omega arith) h

parse-group_and_version :
    (s : String)
    → IsAscii s
    → s ≢ ""
    → parse_api_version s ≡ group_and_version (non_empty (split b'/' s))
unfolding parse_api_version
parse-group_and_version s a h = rw (==_ne s "" h) (ap group_and_version (split_api_version_lem s a))

-- An apiVersion with one slash is its group and its version.
pub parse_api_version_grouped :
    (group version : String)
    → IsAscii (group <> String.◌∷◌ "/" version)
    → Lacks b'/' group
    → Lacks b'/' version
    → group ≢ ""
    → version ≢ ""
    → parse_api_version (group <> String.◌∷◌ "/" version) ≡ ok (group, version)
unfolding group_and_version
parse_api_version_grouped group version a g v k l =
    parse-group_and_version _ a
      (Text.append-ne-nil_of_right_ne-nil group (Text.cons-ne-nil "/" version))
    ∙ rw (
      split-append b'/' group "/" version g refl,
      split_of_Lacks b'/' version v,
      ==_ne group "" k,
      ==_ne version "" l,
    )

-- One without a slash is a version of the core group.
pub parse_api_version_core :
    (version : String)
    → IsAscii version
    → Lacks b'/' version
    → version ≢ ""
    → parse_api_version version ≡ ok ("", version)
unfolding group_and_version
parse_api_version_core version a v l =
    parse-group_and_version version a l ∙ rw (split_of_Lacks b'/' version v, ==_ne version "" l)

-- An apiVersion that is not empty and has nothing but slashes makes the index go out of range.
pub parse_api_version_panics :
    (s : String) → IsAscii s → s ≢ "" → non_empty (split b'/' s) ≡ [] → parse_api_version s ≡ panic
unfolding group_and_version
parse_api_version_panics s a h e = parse-group_and_version s a h ∙ rw e
