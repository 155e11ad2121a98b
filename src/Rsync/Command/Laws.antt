-- ===== src/Rsync/Command/Laws.antt =====
-- Which options the rsync command gets, and when there is an error.
use Prim.Native.Char.{code}
use Prim.Native.String.{◌++◌ as ◌<>◌}
use crane_lib.Base.{String, [], ◌∷◌, ◌++◌}
use crane_lib.Base.{string_eq, ◌≡◌}

abbrev pub StartsWithDash : String → Type 0
StartsWithDash String.[] = ⊥
StartsWithDash (String.◌∷◌ c s) = code c ≡ b'-'
