-- ===== src/Pages.antt =====
-- api/pagination.py: `page_rows`, keyset paging over a query. The text of a cursor is Base64, JSON
-- and the forms of UUIDs and dates, which are other packages' work: a `Codec`.
pub mod Sorting
pub mod Walk
mod Tests
use darknetra.Prelude.{
  ℕ, zero, suc, ◌+◌, List, [], ◌∷◌, ◌++◌, Text, Bool, true, false, not, ◌&&◌, ◌||◌, ◌==◌, ltb, leb,
  ◌≡◌, Option, none, some, keep, take, length, if◌then◌else◌, Result, ok, err, validation, raise_if,
  or_raise, ◌>>=◌, ◌>>◌,
}

-- What paging reads of a row: its identifier and the time under `newest_by`.
pub record Row : Type 0 where
  pub id : ℕ
  pub at : ℕ

-- The place behind which a page starts: `newest_by` and the identifier, or the identifier.
pub data Place : Type 0 where
  by_time : (at : ℕ) (id : ℕ) → Place
  by_id : (id : ℕ) → Place

abbrev pub place_of : Bool → Row → Place
place_of true a = by_time a.at a.id
place_of false a = by_id a.id

-- How a place is written in a cursor, and read from one.
pub record Codec : Type 0 where
  pub encode : Place → Text
  pub decode : Bool → Text → Option Place

-- The order of the query: by time and identifier, newest first, or by identifier.
abbrev pub comes_first : Bool → Row → Row → Bool
comes_first true a b = ltb b.at a.at || (b.at == a.at && ltb b.id a.id)
comes_first false a b = ltb a.id b.id

abbrev pub insert_row : Bool → Row → List Row → List Row
insert_row newest a [] = a ∷ []
insert_row newest a (b ∷ rows) =
    let rest = insert_row newest a rows in if comes_first newest a b then a ∷ b ∷ rows else b ∷ rest

-- `order_by(*ordering)`
pub order_by : Bool → List Row → List Row
order_by newest [] = []
order_by newest (a ∷ rows) = insert_row newest a (order_by newest rows)

-- The condition that a cursor adds to the query.
abbrev pub is_after : Option Place → Row → Bool
is_after none row = true
is_after (some (by_time at id)) row = ltb row.at at || (row.at == at && ltb row.id id)
is_after (some (by_id id)) row = ltb id row.id

-- `rows[-1]`
abbrev pub last_row : List Row → Option Row
last_row [] = none
last_row (a ∷ []) = some a
last_row (a ∷ b ∷ rows) = last_row (b ∷ rows)

pub record Page : Type 0 where
  pub rows : List Row
  pub next_cursor : Option Text
  pub total : ℕ

-- The place in a cursor; an empty cursor counts as none.
abbrev pub read_cursor : Codec → Bool → Option Text → Result (Option Place)
read_cursor codec newest none = ok none
read_cursor codec newest (some []) = ok none
read_cursor codec newest (some (c ∷ cursor)) = elim (codec.decode newest (c ∷ cursor)) [
  | none ↦ err validation
  | some place ↦ ok (some place)
]

-- The page of the rows behind a place, and the cursor of the next page.
abbrev pub page_after : Codec → Bool → List Row → ℕ → Option Place → Page
page_after codec newest table limit place =
    let found = take (limit + 1) (order_by newest (keep (is_after place) table)) in
    let rows = take limit found in
    record {
      rows = rows;
      next_cursor =
          if ltb limit (length found)
          then elim (last_row rows) [
            | none ↦ none
            | some a ↦ some (codec.encode (place_of newest a))
          ]
          else none;
      total = length table;
    }

unfoldable pub page_rows : Codec → Bool → List Row → ℕ → Option Text → Result Page
page_rows codec newest table limit cursor = do
  raise_if (not (leb 1 limit && leb limit 200)) validation
  place ← read_cursor codec newest cursor
  ok (page_after codec newest table limit place)
