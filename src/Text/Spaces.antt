-- ===== src/Text/Spaces.antt =====
-- `strings.TrimSpace`, and a comparison after `strings.ToLower` with a name in ASCII.
use Prim.Native.Char.{Char, code}
use cloud_cost_dashboard.Base.{
  ℕ, ◌+◌, ◌≡◌, refl, String, Bool, true, false, ◌&&◌, ◌==◌, leb, if◌then◌else◌,
}
use cloud_cost_dashboard.Text.Numbers.{is_space}

-- `unicode.IsSpace` holds of the same runes as `is_space`.
trim_left : String → String
trim_left String.[] = String.[]
trim_left (String.◌∷◌ c s) =
    let rest = trim_left s in if is_space (code c) then rest else String.◌∷◌ c s

-- `c` in front of what is left of the text behind it.
push_unless_space : Char → String → String
push_unless_space c String.[] = if is_space (code c) then String.[] else String.◌∷◌ c String.[]
push_unless_space c (String.◌∷◌ d s) = String.◌∷◌ c (String.◌∷◌ d s)

trim_right : String → String
unfolding push_unless_space
trim_right String.[] = String.[]
trim_right (String.◌∷◌ c s) = push_unless_space c (trim_right s)

unfoldable pub trim_space : String → String
unfolding trim_left trim_right
trim_space s = trim_right (trim_left s)

-- The runes outside ASCII whose lower case is in ASCII are U+0130 and U+212A.
abbrev lower : ℕ → ℕ
lower c =
    if leb b'A' c && leb c b'Z'
    then c + 32
    else if c == 0x130
    then b'i'
    else if c == 0x212a
    then b'k'
    else c

unfoldable pub lower_eq : String → String → Bool
lower_eq String.[] String.[] = true
lower_eq String.[] (String.◌∷◌ d t) = false
lower_eq (String.◌∷◌ c s) String.[] = false
lower_eq (String.◌∷◌ c s) (String.◌∷◌ d t) = lower (code c) == code d && lower_eq s t

trimmed : trim_space " a b\t\n" ≡ "a b"
unfolding trim_space
trimmed = refl

lowered : lower_eq "Service_NAME" "service_name" ≡ true
unfolding lower_eq
lowered = refl
