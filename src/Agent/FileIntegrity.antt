-- ===== src/Agent/FileIntegrity.antt =====
-- agent/monitors/file_integrity.py: the monitor that compares files with a baseline of hashes.
pub mod Settled
pub mod Checks
use guardian_pi.Base.{
  String, Bool, true, false, not, ◌&&◌, List, [], ◌∷◌, ◌++◌, Option, none, some, lookup, insert,
  ◌==◌, get_or, if◌then◌else◌,
}

-- A hash by its hexadecimal text; `none` is None, which the third branch of `check` can store.
abbrev pub Hash : Type 0
Hash = Option String

abbrev pub Baseline : Type 0
Baseline = List (String × Hash)

-- `if h:`
abbrev pub is_given : Hash → Bool
is_given none = false
is_given (some h) = not (h == "")

abbrev pub is_none : Hash → Bool
is_none none = true
is_none (some h) = false

-- a != b
abbrev pub differ : Hash → Hash → Bool
differ none none = false
differ none (some h) = true
differ (some h) none = true
differ (some h) (some k) = not (h == k)

-- self.baseline.get(path)
unfoldable pub baseline_hash : Baseline → String → Hash
unfolding lookup
baseline_hash baseline path = get_or (lookup path baseline) none

pub record Change : Type 0 where
  pub path : String
  pub change_type : String
  pub previous_hash : Hash
  pub current_hash : Hash

abbrev pub change : String → String → Hash → Hash → Change
change path change_type previous current = record {
  path = path;
  change_type = change_type;
  previous_hash = previous;
  current_hash = current;
}

-- What the loop of `check` does for a path, with the hash of the file and the one of the baseline.
abbrev pub compare_path : String → Hash → Hash → Baseline → List Change × Baseline
compare_path path current previous baseline =
    if is_none current && is_given previous
    then (change path "deleted" none none ∷ [], baseline)
    else if is_given current && not (is_given previous)
    then (change path "new" none none ∷ [], insert path current baseline)
    else if differ current previous
    then (change path "modified" previous current ∷ [], insert path current baseline)
    else ([], baseline)

-- `_hash_file` reads the files as they stand during the call.
module _ (hash_file : String → Hash) where
  unfoldable pub check_paths : List String → Baseline → List Change × Baseline
  unfolding baseline_hash insert
  check_paths [] baseline = ([], baseline)
  check_paths (path ∷ paths) baseline =
      let (found, next) =
        compare_path path (hash_file path) (baseline_hash baseline path) baseline in
      let (later, last) = check_paths paths next in (found ++ later, last)

  unfoldable pub initialize_paths : List String → Baseline → Baseline
  unfolding insert
  initialize_paths [] baseline = baseline
  initialize_paths (path ∷ paths) baseline =
      let h = hash_file path in
      initialize_paths paths (if is_given h then insert path h baseline else baseline)

-- The monitor and the file of its baseline. `write` is `_save_baseline`, whatever it leaves where
-- writing fails.
module _ {File : Type 0} (write : Baseline → File → File) where
  pub record Monitor : Type 0 where
    pub paths : List String
    pub baseline : Baseline
    pub file : File

  abbrev pub saved : Monitor → Baseline → Monitor
  saved m baseline = record { paths = m.paths; baseline = baseline; file = write baseline m.file }

  module _ (hash_file : String → Hash) where
    unfoldable pub initialize_baseline : Monitor → Monitor
    unfolding initialize_paths
    initialize_baseline m = saved m (initialize_paths hash_file m.paths m.baseline)

    -- `if changes: self._save_baseline()`; a change of the baseline always comes with a change found.
    abbrev pub reported : Monitor → List Change × Baseline → List Change × Monitor
    reported m ([], baseline) = ([], record { paths = m.paths; baseline = baseline; file = m.file })
    reported m (c ∷ changes, baseline) = (c ∷ changes, saved m baseline)

    abbrev pub check_from : Baseline → Monitor → List Change × Monitor
    check_from [] m = ([], initialize_baseline m)
    check_from (b ∷ bs) m = reported m (check_paths hash_file m.paths m.baseline)

    unfoldable pub check : Monitor → List Change × Monitor
    unfolding initialize_baseline check_paths
    check m = check_from m.baseline m
