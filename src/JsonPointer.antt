-- ===== src/JsonPointer.antt =====
-- `escapeJSONPointer`, which transform/new_resource.go and transform/kubernetes/kubernetes.go each
-- define, and the reading of a pointer that RFC 6901 gives.
use Prim.Native.Char.{Char, code}
use Prim.Native.String.{◌++◌ as ◌<>◌}
use text.Mathlib.TextLemmas.{nil-append, cons-append}
use text.Mathlib.TextLemmas as Text
use text.Mathlib.TextEquality.{Char-path}
use crane_lib.Base.{String, Bool, true, false, List, [], ◌∷◌, map, eqb, if◌then◌else◌, ◌≡◌, refl}
use crane_lib.Base.{sym, ◌∙◌, ap, arith, Bool-cases, inl, inr, eqb→eq}
use crane_lib.Strings.{replace_all, split, join}
use crane_lib.Strings.Laws.{Lacks, replace_all-Lacks, split_of_Lacks, split-cons_sep, split-append}

-- ~ must be escaped first
unfoldable pub escape_json_pointer : String → String
escape_json_pointer s = replace_all b'/' "~1" (replace_all b'~' "~0" s)

-- RFC 6901, section 4: "~1" stands for "/" and "~0" for "~". The flag says that a "~" was read.
unescape_from : Bool → String → String
unescape_from waits String.[] = ""
unescape_from true (String.◌∷◌ c s) =
    let rest = unescape_from false s in
    if eqb (code c) b'0' then String.◌∷◌ "~" rest else String.◌∷◌ "/" rest
unescape_from false (String.◌∷◌ c s) =
    let inside = unescape_from true s in
    let plain = String.◌∷◌ c (unescape_from false s) in if eqb (code c) b'~' then inside else plain

unfoldable pub unescape : String → String
unfolding unescape_from
unescape s = unescape_from false s

-- The reference tokens of a pointer.
unfoldable pub tokens : String → List String
tokens p = elim (split b'/' p) [ [] ↦ [] | first ∷ rest ↦ map unescape rest ]

pair-append :
    (a b : Char) (s : String) → String.◌∷◌ a (String.◌∷◌ b "") <> s ≡ String.◌∷◌ a (String.◌∷◌ b s)
pair-append a b s = simp (cons-append, nil-append)

escape-cons :
    (c : Char) (s : String)
    → escape_json_pointer (String.◌∷◌ c s) ≡ (
        if eqb (code c) b'~'
        then "~0" <> escape_json_pointer s
        else if eqb (code c) b'/'
        then "~1" <> escape_json_pointer s
        else String.◌∷◌ c (escape_json_pointer s))
unfolding escape_json_pointer replace_all
escape-cons c s = elim (Bool-cases (eqb (code c) b'~')) [
  | inl tilde ↦ rw tilde (
      ap (replace_all b'/' "~1") (pair-append "~" "0" (replace_all b'~' "~0" s))
      ∙ sym (pair-append "~" "0" _))
  | inr other ↦ rw other
]

same_char :
    (c d : Char) (s : String) {t : String}
    → code c ≡ code d
    → t ≡ s
    → String.◌∷◌ d t ≡ String.◌∷◌ c s
same_char c d s e h = λ i. String.◌∷◌ (Char-path d c (sym e) i) (h i)

unplain :
    (c : Char) (s : String)
    → eqb (code c) b'~' ≡ false
    → unescape_from false (escape_json_pointer s) ≡ s
    → unescape_from false (String.◌∷◌ c (escape_json_pointer s)) ≡ String.◌∷◌ c s
unfolding unescape_from
unplain c s other h = rw other (ap (String.◌∷◌ c) h)

unescape_from-escape : (s : String) → unescape_from false (escape_json_pointer s) ≡ s
unfolding unescape_from
unescape_from-escape String.[] = unfold escape_json_pointer replace_all unescape_from in refl
unescape_from-escape (String.◌∷◌ c s) = elim (Bool-cases (eqb (code c) b'~')) [
  | inl tilde ↦
      rw (escape-cons c s, tilde, pair-append "~" "0" (escape_json_pointer s))
        (same_char c "~" s (eqb→eq _ _ tilde) (unescape_from-escape s))
  | inr other ↦ elim (Bool-cases (eqb (code c) b'/')) [
    | inl slash ↦
        rw (escape-cons c s, other, slash, pair-append "~" "1" (escape_json_pointer s))
          (same_char c "/" s (eqb→eq _ _ slash) (unescape_from-escape s))
    | inr plain ↦ rw (escape-cons c s, other, plain) (unplain c s other (unescape_from-escape s))
  ]
]

-- Reading an escaped token gives the token back.
pub unescape-escape_json_pointer : (s : String) → unescape (escape_json_pointer s) ≡ s
unfolding unescape
unescape-escape_json_pointer s = unescape_from-escape s

-- An escaped token holds no separator.
pub escape_json_pointer-Lacks : (s : String) → Lacks b'/' (escape_json_pointer s)
unfolding escape_json_pointer
escape_json_pointer-Lacks s = replace_all-Lacks b'/' "~1" _ (omega arith)

tokens-split :
    (p first : String) (rest : List String)
    → split b'/' p ≡ first ∷ rest
    → tokens p ≡ map unescape rest
unfolding tokens
tokens-split p first rest h = rw (h, tokens)

split-escaped : (k : String) → split b'/' (escape_json_pointer k) ≡ escape_json_pointer k ∷ []
split-escaped k = split_of_Lacks b'/' (escape_json_pointer k) (escape_json_pointer-Lacks k)

-- The pointer of a top-level key.
pub tokens-key : (k : String) → tokens ("/" <> escape_json_pointer k) ≡ k ∷ []
tokens-key k =
    tokens-split ("/" <> escape_json_pointer k) "" (escape_json_pointer k ∷ []) (
      rw (cons-append, nil-append)
        (split-cons_sep b'/' "/" (escape_json_pointer k) refl ∙ rw (split-escaped k)))
    ∙ rw (unescape-escape_json_pointer k)

slash-append : (t : String) → "/" <> t ≡ String.◌∷◌ "/" t
slash-append t = cons-append "/" "" t ∙ ap (String.◌∷◌ "/") (nil-append t)

unfoldable pub escape_keys : List String → List String
escape_keys [] = []
escape_keys (k ∷ ks) = escape_json_pointer k ∷ escape_keys ks

-- The pointer of a path of keys, as `stripFields` builds it.
unfoldable pub pointer : List String → String
unfolding escape_keys
pointer ks = "/" <> join "/" (escape_keys ks)

split-join-escape_keys :
    (k : String) (ks : List String)
    → split b'/' (join "/" (escape_keys (k ∷ ks))) ≡ escape_keys (k ∷ ks)
unfolding join escape_keys
split-join-escape_keys k [] = split-escaped k
split-join-escape_keys k (j ∷ ks) =
    ap (λ (t : String). split b'/' (escape_json_pointer k <> t))
      (slash-append (join "/" (escape_keys (j ∷ ks))))
    ∙ split-append b'/' (escape_json_pointer k) "/" (join "/" (escape_keys (j ∷ ks)))
        (escape_json_pointer-Lacks k) refl
    ∙ ap (λ (l : List String). escape_json_pointer k ∷ l) (split-join-escape_keys j ks)

unescape-escape_keys : (ks : List String) → map unescape (escape_keys ks) ≡ ks
unfolding escape_keys
unescape-escape_keys [] = refl
unescape-escape_keys (k ∷ ks) =
    rw (unescape-escape_json_pointer k) (ap (λ (l : List String). k ∷ l) (unescape-escape_keys ks))

-- The pointer made of one key or more has those keys as its tokens, whatever they hold.
pub tokens-pointer : (k : String) (ks : List String) → tokens (pointer (k ∷ ks)) ≡ k ∷ ks
unfolding pointer
tokens-pointer k ks =
    tokens-split (pointer (k ∷ ks)) "" (escape_keys (k ∷ ks)) (
      ap (split b'/') (slash-append (join "/" (escape_keys (k ∷ ks))))
      ∙ split-cons_sep b'/' "/" (join "/" (escape_keys (k ∷ ks))) refl
      ∙ ap (λ (l : List String). "" ∷ l) (split-join-escape_keys k ks))
    ∙ unescape-escape_keys (k ∷ ks)

metadata-append : (s : String) → "/metadata/" <> s ≡ String.◌∷◌ "/" ("metadata" <> String.◌∷◌ "/" s)
metadata-append s =
    Text.append_assoc "/metadata" "/" s
    ∙ cons-append "/" "metadata" ("/" <> s)
    ∙ ap (λ (t : String). String.◌∷◌ "/" ("metadata" <> t))
        (cons-append "/" "" s ∙ ap (String.◌∷◌ "/") (nil-append s))

-- The pointer of a key of the metadata.
pub tokens-metadata :
    (k : String) → tokens ("/metadata/" <> escape_json_pointer k) ≡ "metadata" ∷ k ∷ []
tokens-metadata k =
    tokens-split ("/metadata/" <> escape_json_pointer k) ""
      ("metadata" ∷ escape_json_pointer k ∷ [])
      (rw (metadata-append (escape_json_pointer k)) (
        split-cons_sep b'/' "/" ("metadata" <> String.◌∷◌ "/" (escape_json_pointer k)) refl
        ∙ rw (
          split-append b'/' "metadata" "/" (escape_json_pointer k) (omega arith) refl,
          split-escaped k,
        )))
    ∙ rw (unescape-escape_json_pointer k) (unfold unescape in refl)
