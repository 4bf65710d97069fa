-- ===== src/Authorization/Sorting.antt =====
-- The order of the list that ListGrants returns.
use tflive.Common.{◌≡◌, Bool, true, false, List, arith}
use tflive.Common.Chars.{
  Chars, same_chars, same_chars_refl, same_chars_eq, same_chars_sym, before_irrefl, before_trans,
  before_total,
}
use tflive.Common.Sorting.{sort, Unlike, InOrder, sort-InOrder}
use tflive.Authorization.Vocabulary.{string_of}
use tflive.Authorization.Relations.{Grant}
use tflive.Authorization.Grants.{grant_before, grant_key}

-- No two grants of one subject and relation.
abbrev pub same_key : Grant → Grant → Bool
same_key g h = same_chars (grant_key g) (grant_key h)

abbrev subject_text : Grant → Chars
subject_text g = string_of g.subject.identifier

grant_before_trans :
    (g h k : Grant) → grant_before g h ≡ true → grant_before h k ≡ true → grant_before g k ≡ true
unfolding grant_before
grant_before_trans g h k p q = ground (
  arith,
  same_chars_eq (subject_text g) (subject_text h),
  same_chars_eq (subject_text h) (subject_text k),
  same_chars_eq (subject_text g) (subject_text k),
  before_trans (subject_text g) (subject_text h) (subject_text k),
  before_trans g.relation.value h.relation.value k.relation.value,
  before_irrefl (subject_text g),
  same_chars_refl (subject_text g),
)

-- Grants of different keys are in one order or the other.
grant_before_total :
    (g h : Grant)
    → same_chars (grant_key g) (grant_key h) ≡ false
    → grant_before h g ≡ false
    → grant_before g h ≡ true
unfolding grant_before
grant_before_total g h p q = ground (
  arith,
  same_chars_eq (subject_text h) (subject_text g),
  same_chars_sym (subject_text h) (subject_text g),
  same_chars_eq h.relation.value g.relation.value,
  same_chars_refl (grant_key g),
  before_total (subject_text h) (subject_text g),
  before_total h.relation.value g.relation.value,
)

pub sort-grants-InOrder :
    (gs : List Grant) → Unlike same_key gs → InOrder grant_before (sort grant_before gs)
sort-grants-InOrder gs h =
    sort-InOrder grant_before same_key grant_before_trans grant_before_total gs h
