-- ===== src/Writer/Entry.antt =====
-- `_Entry` of toinflux/writer.py, and its line in a spool file.
use send_to_influx.Prelude.{
  ℕ, ◌≡◌, Bool, false, Option, none, some, [], ◌∷◌, ◌++◌, All, ◌==◌, if◌then◌else◌, Text,
}
use send_to_influx.Writer.Lines.{newline, ends_line}

-- The members of a spooled point: `s`, `i`, `l` and `r`.
pub record Record : Type 0 where
  pub source : Text
  pub instance_name : Option Text
  pub line : Text
  pub rejections : ℕ

-- Python's json: `dumps` of such a mapping, on one line, and `loads` with the reading of the four
-- members, none where that raises. `loads` ignores white space at the end.
pub record Json : Type 0 where
  pub dumps : Record → Text
  pub loads : Text → Option Record
  pub loads-dumps : (r : Record) → loads (dumps r ++ newline ∷ []) ≡ some r
  pub one_line : (r : Record) → All (λ c. (c == newline) ≡ false) (dumps r)

-- `end` is the segment and the offset of its end. `id` stands for the object itself, which the source
-- compares by `is`: an entry that is read from the spool has the offset of its end for it.
pub record Entry : Type 0 where
  pub point : Record
  pub live : Bool
  pub end : Option (ℕ × ℕ)
  pub id : ℕ

-- `encoded`
unfoldable pub encoded : Json → Record → Text
encoded json r = json.dumps r ++ newline ∷ []

-- `_decode`
unfoldable pub decode : Json → Text → Option Record
decode json raw = if ends_line raw then json.loads raw else none
