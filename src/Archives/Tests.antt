-- ===== src/Archives/Tests.antt =====
-- The check of archives at a concrete archive.
use darknetra.Prelude.{
  ◌≡◌, refl, ok, err, value_error, codes, List, [], ◌∷◌, length, All, ◌≤◌, String,
}
use darknetra.Archives.{Member, safe_members}
use darknetra.Archives.Safe.{IsSafe, total_size, safe_members-IsSafe}

abbrev member : String → Member
member name = record {
  filename = codes name;
  external_attr = 0;
  flag_bits = 0;
  file_size = 90;
  compress_size = 1;
}

abbrev report : List Member
report = member "docs/./report.txt" ∷ member ".zip" ∷ []

report-kept : safe_members report 180 ≡ ok report
unfolding safe_members
report-kept = refl

report-too_large : safe_members report 179 ≡ err value_error
unfolding safe_members
report-too_large = refl

parent-refused : safe_members (member "docs\\..\\..\\x" ∷ []) 180 ≡ err value_error
unfolding safe_members
parent-refused = refl

nested-refused : safe_members (member "a.tar.GZ" ∷ []) 180 ≡ err value_error
unfolding safe_members
nested-refused = refl

safe_members-IsSafe_example :
    (report ≡ report) × (length report ≤ 2000) × (total_size report ≤ 180) × All IsSafe report
safe_members-IsSafe_example = safe_members-IsSafe report report 180 report-kept
