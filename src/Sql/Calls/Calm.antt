-- ===== src/Sql/Calls/Calm.antt =====
-- Calls of the string builder that write no DROP of a table or a column.
use Prim.Native.String.{String}
use schema_compare_c.Base.{
  ◌==◌, if◌then◌else◌, ◌≡◌, refl, Bool, true, false, ◌||◌, ◌&&◌, not, map, List, [], ◌∷◌, ◌++◌,
  none, some,
}
use schema_compare_c.Text.{Bytes, CString, codes}
use schema_compare_c.Text.Ctype.{to_lower}
use schema_compare_c.Text.Strings.{starts_with}
use schema_compare_c.Sql.Calls.{
  Call, literal, append, identifier, format, text, calls_if, append_or,
}

-- The text, in small letters, begins with the word of a DROP that may lose data: one that is not
-- known to be the DROP NOT NULL or DROP DEFAULT of a column or the DROP CONSTRAINT of a table.
unfoldable begins_loss : Bytes → Bool
unfolding starts_with
begins_loss s =
    starts_with (codes "drop") s
    && (not (starts_with (codes "drop not null") s)
        && (not (starts_with (codes "drop default") s)
            && not (starts_with (codes "drop constraint ") s)))

unfoldable contains_loss : Bytes → Bool
unfolding begins_loss
contains_loss [] = false
contains_loss (c ∷ s) = begins_loss (c ∷ s) || contains_loss s

unfoldable past_line : Bytes → Bytes
past_line [] = []
past_line (c ∷ s) = let rest = past_line s in if c == b'\n' then s else rest

-- The text without the line of a comment that it begins with.
unfoldable without_comment : Bytes → Bytes
unfolding past_line starts_with
without_comment s = if starts_with (codes "--") s then past_line s else s

-- A constant or a format of the code that has such a DROP anywhere in it, in letters of either case,
-- besides the line of a comment that it may begin with: a DROP TABLE, a DROP COLUMN or a DROP whose
-- object another call would write. The texts of the input, which may contain these words, are left
-- out, also where a format takes them.
unfoldable pub drops : Call → Bool
unfolding contains_loss without_comment to_lower
drops (literal s) = contains_loss (without_comment (map to_lower s))
drops (append _) = false
drops (identifier _) = false
drops (format f _) = contains_loss (without_comment (map to_lower f))

unfoldable pub any_drops : List Call → Bool
any_drops [] = false
any_drops (call ∷ calls) = drops call || any_drops calls

abbrev pub Calm : List Call → Type 0
Calm calls = any_drops calls ≡ false

pub Calm-append : (a b : List Call) → Calm a → Calm b → Calm (a ++ b)
unfolding any_drops
Calm-append [] b h k = k
Calm-append (call ∷ a) b h k =
    both (drops call) (any_drops a) (any_drops (a ++ b)) h (λ e. Calm-append a b e k)
  where
    both : (p q r : Bool) → (p || q) ≡ false → (q ≡ false → r ≡ false) → (p || r) ≡ false
    both true q r h f = h
    both false q r h f = f h

pub Calm-if : (b : Bool) (calls : List Call) → Calm calls → Calm (calls_if b calls)
unfolding any_drops
Calm-if true calls h = h
Calm-if false calls h = refl

pub drops-append_or :
    (s : CString) (otherwise : String)
    → drops (text otherwise) ≡ false
    → drops (append_or s otherwise) ≡ false
unfolding drops
drops-append_or none otherwise h = h
drops-append_or (some s) otherwise h = refl

pub drops-if :
    (b : Bool) (x y : Call) → drops y ≡ false → drops x ≡ false → drops (if b then x else y) ≡ false
drops-if true x y h k = k
drops-if false x y h k = h
