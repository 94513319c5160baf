-- ===== src/Db/Memory.antt =====
-- A table that is a list and refuses nothing: it shows that the assumptions can be met.
use guardian_pi.Base.{not, List, [], ◌∷◌, ◌++◌, some, filter, ◌==◌, arith}
use guardian_pi.Db.{Uuid, Table, IsLawful, overwrite}

abbrev pub memory : {Row : Type 0} → (Row → Uuid) → Table Row
memory {Row} key = record {
  Store = List Row;
  rows = λ s. s;
  add = λ r s. some (s ++ r ∷ []);
  save = λ r s. some (overwrite key r s);
  delete = λ r s. some (filter (λ x. not (key x == key r)) s);
}

pub memory-IsLawful : {Row : Type 0} (key : Row → Uuid) → IsLawful key (memory key)
memory-IsLawful key = record {
  rows-add = λ r s t h. ground arith;
  rows-save = λ r s t h. ground arith;
  rows-delete = λ r s t h. ground arith;
}
