-- ===== src/Core/Text.antt =====
-- Python texts as lists of code points: `str.strip`, and the truth of a text.
use Prim.Native.Char.{code}
use Prim.Native.String.{String}
use crypto_processing_api.Prelude.{
  ℕ, Bool, true, false, ◌&&◌, ◌||◌, Option, none, some, List, [], ◌∷◌, if◌then◌else◌, ◌==◌, leb,
}

abbrev pub Text : Type 0
Text = List ℕ

-- The code points of a quoted text.
abbrev pub codes : String → Text
codes String.[] = []
codes (String.◌∷◌ c s) = code c ∷ codes s

-- The white space that `str.strip` removes.
unfoldable pub is_space : ℕ → Bool
is_space c =
    (leb 9 c && leb c 13)
    || (leb 28 c && leb c 32)
    || c == 133
    || c == 160
    || c == 5760
    || (leb 8192 c && leb c 8202)
    || c == 8232
    || c == 8233
    || c == 8239
    || c == 8287
    || c == 12288

unfoldable pub lstrip : Text → Text
lstrip [] = []
lstrip (c ∷ t) = if is_space c then lstrip t else c ∷ t

-- From the right: a space goes if nothing but spaces follows it.
unfoldable pub kept : ℕ → Text → Text
kept c [] = if is_space c then [] else c ∷ []
kept c (d ∷ t) = c ∷ d ∷ t

unfoldable pub rstrip : Text → Text
unfolding kept
rstrip [] = []
rstrip (c ∷ t) = kept c (rstrip t)

unfoldable pub strip : Text → Text
unfolding lstrip rstrip is_space
strip t = rstrip (lstrip t)

-- `bool(text)`, of a text that may be None.
abbrev pub has_text : Option Text → Bool
has_text none = false
has_text (some []) = false
has_text (some (c ∷ t)) = true

-- `text or other`
abbrev pub text_or : Option Text → Text → Text
text_or none other = other
text_or (some []) other = other
text_or (some (c ∷ t)) other = c ∷ t
