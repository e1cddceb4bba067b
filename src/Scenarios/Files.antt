-- ===== src/Scenarios/Files.antt =====
-- A disk as a map from names to contents, and small runs of the file store on it.
use job_raft.Task.{Task, not_found, Err}
use job_raft.Store.{ok}
use Prim.Native.String.{◌++◌}
use job_raft.Base.{
  ◌∙◌, has_slash, erase, lookup-erase, insert, lookup-insert, Assoc, ◌≡◌, refl, ap, inl, inr,
  String, true, false, Option, none, some, [], ◌∷◌, arith, eq_iff, eq_refl, ◌==◌, if◌then◌else◌,
  Option-cases, lookup, is_some,
}
use job_raft.Scenarios.{sample}
use job_raft.Fileutil.{FileSystem, replace}
use job_raft.Fileutil.Safe.{IsDisk, replace-Kept, Kept}
use job_raft.Store.Contract.{IsLawful}
use job_raft.Store.File
use job_raft.Store.File.{FileStore, Encoding, new_file, save_locked, file}
use job_raft.Store.File.Contract.{file-IsLawful}
use job_raft.Store.File.Durable.{
  deletes, write_file, write_memory, in_memory, RoundTrips, write_file-write_memory,
  write_file-new_file, IsReopened, laid_out,
}
use job_raft.Scenarios.Json.{
  is_made_cons, is_made, Task-discrete, printed, read_back, printed-filled, read_back-printed,
}
use mathlib.Core.Option

abbrev map_rename : String → String → Assoc String → Option Err × Assoc String
map_rename a b d = elim (lookup a d) [
  | none ↦ (some not_found, d)
  | some text ↦ (none, insert b text (erase a d))
]

abbrev map_remove : String → Assoc String → Option Err × Assoc String
map_remove a d = if is_some (lookup a d) then (none, erase a d) else (some not_found, d)

abbrev pub map_disk : FileSystem (Assoc String)
map_disk = record {
  read = λ a d. ok (lookup a d);
  write = λ a text d. (none, insert a text d);
  rename = map_rename;
  remove = map_remove;
  is_not_exist = λ e. true;
}

map_rename_target :
    (a b : String) (d : Assoc String)
    → (map_rename a b d).0 ≡ none
    → lookup b (map_rename a b d).1 ≡ lookup a d
map_rename_target a b d h = elim (Option-cases (lookup a d)) [
  | inl missing ↦ absurd (ground arith)
  | inr (text, found) ↦ ground (arith, lookup-insert b b text (erase a d), eq_refl b)
]

map_rename_others :
    (a b c : String) (d : Assoc String)
    → (c == a) ≡ false
    → (c == b) ≡ false
    → lookup c (map_rename a b d).1 ≡ lookup c d
map_rename_others a b c d h k = elim (Option-cases (lookup a d)) [
  | inl missing ↦ ground arith
  | inr (text, found) ↦ ground (
    arith,
    lookup-insert b c text (erase a d),
    lookup-erase a c d,
    eq_iff a c,
    eq_iff b c,
    eq_iff c a,
    eq_iff c b,
  )
]

pub map_disk-IsDisk : IsDisk map_disk
map_disk-IsDisk = record {
  rename_target = λ a b d h. ap ok (map_rename_target a b d h);
  rename_others = λ a b c d h k. ap ok (map_rename_others a b c d h k);
  rename_failed = λ a b c d e h. ground arith;
  remove_others = λ a c d h. ground (arith, lookup-erase a c d, eq_iff a c, eq_iff c a);
  write_target = λ a text d h. ground (arith, lookup-insert a a text d, eq_refl a);
  write_others = λ a text c d h. ground (arith, lookup-insert a c text d, eq_iff a c, eq_iff c a);
}

-- The task that a key stands for.
abbrev task_of : String → Task
task_of id = record sample { id = id }

-- An encoding of all maps of such tasks.
abbrev toy_json : Encoding
toy_json = record {
  marshal = printed Task-discrete task_of;
  unmarshal = read_back Task-discrete task_of;
}

same_layout :
    (id : String) (m : Assoc Task)
    → lookup id m ≡ Option.map (laid_out (λ x. x) (λ x. x)) (lookup id m)
same_layout id m = elim (Option-cases (lookup id m)) [
  | inl missing ↦ rw missing refl
  | inr (t, found) ↦ rw found refl
]

toy_json-RoundTrips : RoundTrips toy_json
toy_json-RoundTrips = record {
  layout_payload = λ x. x;
  layout_result = λ x. x;
  not_empty = printed-filled Task-discrete task_of;
  reads_back =
      λ m text h. (m, read_back-printed Task-discrete task_of m text h, λ id. same_layout id m);
}

abbrev three_tasks : FileStore (Assoc String)
three_tasks = record {
  path = "tasks";
  tasks = ("a", sample) ∷ ("b", task_of "b") ∷ ("c", task_of "c") ∷ [];
  disk = ("tasks", "old") ∷ [];
}

replace-Kept_example :
    Kept map_disk "new" "tasks" "tasks.bak"
      (("tasks", "old") ∷ ("new", "text") ∷ [])
      (replace map_disk "new" "tasks" (("tasks", "old") ∷ ("new", "text") ∷ []))
replace-Kept_example =
    replace-Kept map_disk map_disk-IsDisk "new" "tasks" (("tasks", "old") ∷ ("new", "text") ∷ [])
      refl refl refl

write_file-write_memory_example :
    (write_file map_disk toy_json (deletes "a") three_tasks).1.tasks
    ≡ (write_memory (deletes "a") (in_memory map_disk toy_json three_tasks)).1.tasks
write_file-write_memory_example =
    write_file-write_memory map_disk toy_json (deletes "a") three_tasks

two_made : is_made Task-discrete task_of (("b", task_of "b") ∷ ("c", task_of "c") ∷ []) ≡ true
unfolding has_slash is_made
two_made =
    is_made_cons Task-discrete task_of "b" (("c", task_of "c") ∷ []) refl
      (is_made_cons Task-discrete task_of "c" [] refl refl)

abbrev two_tasks : FileStore (Assoc String)
two_tasks = record three_tasks { tasks = ("b", task_of "b") ∷ ("c", task_of "c") ∷ [] }

saved : (save_locked map_disk toy_json two_tasks).0 ≡ none
unfolding save_locked replace lookup insert erase
saved = ground (arith, two_made)

only_a_gone :
    write_file map_disk toy_json (deletes "a") three_tasks ≡ save_locked map_disk toy_json two_tasks
unfolding File.delete lookup erase
only_a_gone = refl

deleted_a : (write_file map_disk toy_json (deletes "a") three_tasks).0 ≡ none
deleted_a = ap (λ r. r.0) only_a_gone ∙ saved

write_file-new_file_example :
    (again : FileStore (Assoc String)) × (new_file map_disk toy_json "tasks"
        (write_file map_disk toy_json (deletes "a") three_tasks).1.disk
      ≡ ok again)
    × IsReopened toy_json-RoundTrips
        (write_file map_disk toy_json (deletes "a") three_tasks).1
        again
write_file-new_file_example =
    write_file-new_file map_disk toy_json map_disk-IsDisk toy_json-RoundTrips (deletes "a")
      three_tasks refl refl refl refl deleted_a

-- An encoding that never fails.
abbrev constant_json : Encoding
constant_json = record { marshal = λ m. ok "{}"; unmarshal = λ text. ok [] }

map_saves : (s : FileStore (Assoc String)) → (save_locked map_disk constant_json s).0 ≡ none
unfolding save_locked replace
map_saves s = ground (
  arith,
  lookup-insert (s.path ++ ".tmp") (s.path ++ ".tmp") "{}" s.disk,
  eq_refl (s.path ++ ".tmp"),
)

file-IsLawful_example : IsLawful (file map_disk constant_json)
file-IsLawful_example = file-IsLawful map_disk constant_json map_saves
