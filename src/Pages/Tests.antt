-- ===== src/Pages/Tests.antt =====
-- Pages of a small table.
use darknetra.Prelude.{
  ◌≡◌, refl, ok, err, validation, Bool, true, false, List, [], ◌∷◌, Option, none, some, arith, Text,
}
use darknetra.Pages.{Row, Place, Codec, by_time, by_id, page_rows, order_by, read_cursor, place_of}
use darknetra.Pages.Sorting.{HasKeys}
use darknetra.Pages.Walk.{IsFaithful, walk, walk-eq-order_by}

abbrev encode : Place → Text
encode (by_time at id) = at ∷ id ∷ []
encode (by_id id) = id ∷ []

abbrev decode : Bool → Text → Option Place
decode true (at ∷ id ∷ []) = some (by_time at id)
decode false (id ∷ []) = some (by_id id)
decode _ _ = none

abbrev codec : Codec
codec = record { encode = encode; decode = decode }

codec-IsFaithful : IsFaithful codec
codec-IsFaithful = record { written = written }
  where
    written :
        (newest : Bool) (a : Row)
        → read_cursor codec newest (some (encode (place_of newest a)))
          ≡ ok (some (place_of newest a))
    written true a = refl
    written false a = refl

abbrev table : List Row
table =
    record { id = 2; at = 5 }
    ∷ record { id = 1; at = 5 }
    ∷ record { id = 4; at = 3 }
    ∷ record { id = 3; at = 8 }
    ∷ []

first_page :
    page_rows codec true table 2 none
    ≡ ok (record {
      rows = record { id = 3; at = 8 } ∷ record { id = 2; at = 5 } ∷ [];
      next_cursor = some (5 ∷ 2 ∷ []);
      total = 4;
    })
unfolding page_rows order_by
first_page = refl

bad_limit : page_rows codec true table 201 none ≡ err validation
unfolding page_rows
bad_limit = refl

bad_cursor : page_rows codec false table 2 (some (5 ∷ 2 ∷ [])) ≡ err validation
unfolding page_rows
bad_cursor = refl

table-HasKeys : HasKeys table
table-HasKeys = ground arith

walk-eq-order_by_example : walk codec true table 2 5 none ≡ ok (order_by true table)
walk-eq-order_by_example =
    walk-eq-order_by codec codec-IsFaithful true table table-HasKeys 1 (omega arith)
