-- ===== src/Rsync/Command/Errors.antt =====
-- When the rsync command's options give an error.
use crane_lib.Base.{String, Bool, true, Option, none, some, List, [], ◌∷◌, ◌++◌, All}
use crane_lib.Base.{◌≡◌, refl, Bool-cases, inl, inr, ◌↔◌}
use crane_lib.Base.Int.{ℤ, is_positive}
use crane_lib.Rsync.{CommandOptions, Aggregate}
use crane_lib.Rsync.Patterns.{is_info_option, is_extra_option}
use crane_lib.Rsync.Command.{
  filter_options, filter_rsync_info_options, filter_rsync_extra_options, bw_limit_part, info_part,
  extras_part, as_rsync_command_options, trim_space, info_message, extra_message,
}

abbrev pub NoErrors : List (Option String) → Type 0
NoErrors errs = All (λ e. e ≡ none) errs

-- What NewAggregate documents: nil for a list without an error that is not nil.
abbrev pub IsAggregate : Aggregate → Type 0
IsAggregate aggregate = (errs : List (Option String)) → (aggregate errs ≡ none) ↔ NoErrors errs

-- No limit, or a positive one.
abbrev pub IsPositiveLimit : Option ℤ → Type 0
IsPositiveLimit none = Unit
IsPositiveLimit (some n) = is_positive n ≡ true

pub NoErrors-append :
    (xs ys : List (Option String)) → NoErrors (xs ++ ys) ↔ (NoErrors xs × NoErrors ys)
NoErrors-append [] ys = (λ h. (tt, h), λ (_, h). h)
NoErrors-append (x ∷ xs) ys = (
  λ (e, h). let (hx, hy) = (NoErrors-append xs ys).0 h in ((e, hx), hy),
  λ ((e, hx), hy). (e, (NoErrors-append xs ys).1 (hx, hy)),
)

filter_options-NoErrors :
    (test : String → Bool) (keep_as message : String → String) (options : List String)
    → NoErrors (filter_options test keep_as message options).1 ↔ All (λ o. test o ≡ true) options
unfolding filter_options
filter_options-NoErrors test keep_as message [] = (λ h. tt, λ h. tt)
filter_options-NoErrors test keep_as message (o ∷ options) = elim (Bool-cases (test o)) [
  | inl e ↦
      let rest = filter_options-NoErrors test keep_as message options in
      rw e (λ h. (refl, rest.0 h), λ (_, h). rest.1 h)
  | inr e ↦ rw e (λ (never, _). absurd (cc never), λ (never, _). absurd (cc never))
]

bw_limit_part-NoErrors : (n : Option ℤ) → NoErrors (bw_limit_part n).1 ↔ IsPositiveLimit n
unfolding bw_limit_part
bw_limit_part-NoErrors none = (λ h. tt, λ h. tt)
bw_limit_part-NoErrors (some n) = elim (Bool-cases (is_positive n)) [
  | inl e ↦ rw e (λ h. refl, λ h. tt)
  | inr e ↦ rw e (λ (never, _). absurd (cc never), λ never. absurd (cc never))
]

module _ (aggregate : Aggregate) (aggregates : IsAggregate aggregate) where
  info_part-NoErrors :
      (info : List String)
      → NoErrors (info_part aggregate info).1 ↔ All (λ o. is_info_option o ≡ true) info
  unfolding info_part filter_rsync_info_options
  info_part-NoErrors [] = (λ h. tt, λ h. tt)
  info_part-NoErrors (i ∷ info) =
      let f = filter_options-NoErrors is_info_option trim_space info_message (i ∷ info) in
      (λ (h, _). f.0 ((aggregates _).0 h), λ h. ((aggregates _).1 (f.1 h), tt))

  extras_part-NoErrors :
      (extras : List String)
      → NoErrors (extras_part aggregate extras).1 ↔ All (λ o. is_extra_option o ≡ true) extras
  unfolding extras_part filter_rsync_extra_options
  extras_part-NoErrors [] = (λ h. tt, λ h. tt)
  extras_part-NoErrors (e ∷ extras) =
      let f = filter_options-NoErrors is_extra_option (λ opt. opt) extra_message (e ∷ extras) in
      (λ (h, _). f.0 ((aggregates _).0 h), λ h. ((aggregates _).1 (f.1 h), tt))

  -- There is no error exactly if the limit, if there is one, is positive and every value of --info
  -- and every extra option matches its expression.
  pub as_rsync_command_options-none :
      (c : CommandOptions)
      → ((as_rsync_command_options aggregate c).1 ≡ none) ↔ (
          IsPositiveLimit c.bw_limit
          × All (λ o. is_info_option o ≡ true) c.info
          × All (λ o. is_extra_option o ≡ true) c.extras)
  unfolding as_rsync_command_options
  as_rsync_command_options-none c =
      let limit = bw_limit_part-NoErrors c.bw_limit in
      let info = info_part-NoErrors c.info in
      let extras = extras_part-NoErrors c.extras in
      (
        λ h.
            let (two, x) = (NoErrors-append _ _).0 ((aggregates _).0 h) in
            let (l, i) = (NoErrors-append _ _).0 two in (limit.0 l, info.0 i, extras.0 x),
        λ (l, i, x).
            (aggregates _).1
              ((NoErrors-append _ _).1 ((NoErrors-append _ _).1 (limit.1 l, info.1 i), extras.1 x)),
      )
