-- ===== src/Select/Text.antt =====
-- Python's `lower` and `strip` on ASCII text, which mesh/select.py normalises its signals with.
use Prim.Native.String.{◌++◌}
use slancha_mesh.Common.{String, Bool, [], ◌∷◌, if◌then◌else◌, ◌==◌, ◌&&◌, any, get_or}
use slancha_mesh.Common.Dict.{Assoc, lookup}

abbrev lower_table : Assoc String
lower_table =
    ("A", "a")
    ∷ ("B", "b")
    ∷ ("C", "c")
    ∷ ("D", "d")
    ∷ ("E", "e")
    ∷ ("F", "f")
    ∷ ("G", "g")
    ∷ ("H", "h")
    ∷ ("I", "i")
    ∷ ("J", "j")
    ∷ ("K", "k")
    ∷ ("L", "l")
    ∷ ("M", "m")
    ∷ ("N", "n")
    ∷ ("O", "o")
    ∷ ("P", "p")
    ∷ ("Q", "q")
    ∷ ("R", "r")
    ∷ ("S", "s")
    ∷ ("T", "t")
    ∷ ("U", "u")
    ∷ ("V", "v")
    ∷ ("W", "w")
    ∷ ("X", "x")
    ∷ ("Y", "y")
    ∷ ("Z", "z")
    ∷ []

-- The letter in lower case; another character as it is.
abbrev lower_letter : String → String
lower_letter s = get_or (lookup s lower_table) s

unfoldable pub lower : String → String
unfolding lookup
lower String.[] = ""
lower (String.◌∷◌ c s) = lower_letter (String.◌∷◌ c String.[]) ++ lower s

abbrev is_space : String → Bool
is_space s =
    any (λ t. t == s)
      (" " ∷ "\t" ∷ "\n" ∷ "\u{b}" ∷ "\u{c}" ∷ "\r" ∷ "\u{1c}" ∷ "\u{1d}" ∷ "\u{1e}" ∷ "\u{1f}"
        ∷ [])

unfoldable pub strip_left : String → String
unfolding any
strip_left String.[] = ""
strip_left (String.◌∷◌ c s) =
    let rest = strip_left s in if is_space (String.◌∷◌ c String.[]) then rest else String.◌∷◌ c s

unfoldable pub strip_right : String → String
unfolding any
strip_right String.[] = ""
strip_right (String.◌∷◌ c s) =
    let rest = strip_right s in
    if is_space (String.◌∷◌ c String.[]) && rest == "" then "" else String.◌∷◌ c rest

unfoldable pub strip : String → String
unfolding strip_left strip_right
strip s = strip_right (strip_left s)
