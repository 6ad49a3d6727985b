-- ===== src/Base/Text.antt =====
-- Text literals as bytes: the code points of a literal, all ASCII where it is used.
use Prim.Native.Char.{code}
use Prim.Native.String.{String}
use mathlib.Core.List.{[], ◌∷◌}
use holdfast.Base.Tests.{Bytes}

abbrev pub text : String → Bytes
text String.[] = []
text (String.◌∷◌ c s) = code c ∷ text s
