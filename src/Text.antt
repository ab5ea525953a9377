-- ===== src/Text.antt =====
-- The parts of Python's `str` that the SDK uses: `startswith`, `endswith`, `strip`, `lower`,
-- `split`, `partition`, over code points.
use Prim.Native.Char.{Char, code}
use Prim.Native.String.{String}
use axiam_python_sdk.Base.{
  ℕ, ◌+◌, Bool, true, false, ◌&&◌, ◌||◌, Option, none, some, List, [], ◌∷◌, if◌then◌else◌, leb, eqb,
}

-- s.startswith(prefix)
unfoldable pub starts_with : String → String → Bool
starts_with String.[] s = true
starts_with (String.◌∷◌ c prefix) String.[] = false
starts_with (String.◌∷◌ c prefix) (String.◌∷◌ d s) = eqb (code c) (code d) && starts_with prefix s

-- Whether s is longer than other, in code points: len(s) > len(other)
unfoldable pub longer : String → String → Bool
longer String.[] other = false
longer (String.◌∷◌ c s) String.[] = true
longer (String.◌∷◌ c s) (String.◌∷◌ d other) = longer s other

-- s.endswith(c) for one character, given by its code
unfoldable pub ends_with : ℕ → String → Bool
ends_with c String.[] = false
ends_with c (String.◌∷◌ d String.[]) = eqb (code d) c
ends_with c (String.◌∷◌ d (String.◌∷◌ e s)) = ends_with c (String.◌∷◌ e s)

-- s[:-1]
unfoldable pub drop_last : String → String
drop_last String.[] = String.[]
drop_last (String.◌∷◌ d String.[]) = String.[]
drop_last (String.◌∷◌ d (String.◌∷◌ e s)) = String.◌∷◌ d (drop_last (String.◌∷◌ e s))

-- Whether a string is empty: not s
abbrev pub is_blank : String → Bool
is_blank String.[] = true
is_blank (String.◌∷◌ c s) = false

-- str.isspace on one character
unfoldable pub is_space : ℕ → Bool
is_space c =
    (leb 9 c && leb c 13)
    || (leb 28 c && leb c 32)
    || eqb c 0x85
    || eqb c 0xA0
    || eqb c 0x1680
    || (leb 0x2000 c && leb c 0x200A)
    || eqb c 0x2028
    || eqb c 0x2029
    || eqb c 0x202F
    || eqb c 0x205F
    || eqb c 0x3000

unfoldable pub strip_left : String → String
unfolding is_space
strip_left String.[] = String.[]
strip_left (String.◌∷◌ c s) =
    let rest = strip_left s in if is_space (code c) then rest else String.◌∷◌ c s

unfoldable pub strip_right : String → String
unfolding is_space
strip_right String.[] = String.[]
strip_right (String.◌∷◌ c s) =
    let rest = strip_right s in
    if is_blank rest && is_space (code c) then String.[] else String.◌∷◌ c rest

-- s.strip()
unfoldable pub strip : String → String
unfolding strip_left strip_right
strip s = strip_right (strip_left s)

-- Puts a character before the first of some parts.
abbrev pub grow : Char → List String → List String
grow c [] = String.◌∷◌ c String.[] ∷ []
grow c (part ∷ parts) = String.◌∷◌ c part ∷ parts

-- s.split(sep) for one character, given by its code
unfoldable pub split : ℕ → String → List String
split sep String.[] = String.[] ∷ []
split sep (String.◌∷◌ c s) =
    let parts = split sep s in if eqb (code c) sep then String.[] ∷ parts else grow c parts

abbrev pub after : Char → Option (String × String) → Option (String × String)
after c none = none
after c (some (key, value)) = some (String.◌∷◌ c key, value)

-- s.partition(sep) for one character: none where sep does not occur
unfoldable pub partition : ℕ → String → Option (String × String)
partition sep String.[] = none
partition sep (String.◌∷◌ c s) =
    let rest = partition sep s in if eqb (code c) sep then some (String.[], s) else after c rest

-- c.lower() of an ASCII letter
abbrev pub lower_code : ℕ → ℕ
lower_code c = if leb b'A' c && leb c b'Z' then c + 32 else c

-- s.lower() == text, for a lower-case ASCII text. A letter outside ASCII is taken to differ, which
-- is so for the texts that the SDK compares with: no such letter lowers to one of theirs.
unfoldable pub lower_equals : String → String → Bool
lower_equals String.[] String.[] = true
lower_equals (String.◌∷◌ c s) (String.◌∷◌ d text) =
    eqb (lower_code (code c)) (code d) && lower_equals s text
lower_equals _ _ = false

-- all(test(c) for c in s)
unfoldable pub every : (ℕ → Bool) → String → Bool
every test String.[] = true
every test (String.◌∷◌ c s) = test (code c) && every test s
