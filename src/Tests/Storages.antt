-- ===== src/Tests/Storages.antt =====
-- The local copies at concrete inputs.
use jupyter_pair_ext.Base.{
  ◌≡◌, refl, sym, ◌∙◌, true, false, Option, none, some, inl, inr, Bool-cases, [], ◌∷◌, ◌++◌, arith,
  if◌then◌else◌, nat_eq, string_eq, Result, ok, err, Map, get, put, remove, get-put, get-remove,
}
use jupyter_pair_ext.Base.Codes.{Text, text_eqb, text_eq, text_eqb_iff}
use jupyter_pair_ext.Base.Js.{codes}
use jupyter_pair_ext.Storage.{
  enoent, eacces, Failure, system, endless, Bytes, Adapter, World, Action, Host,
}
use jupyter_pair_ext.Storage.State.{
  redirected, resolve_current_path, redirect, follow, retarget, is_removed, requeue, restore,
  end_redirect,
}
use jupyter_pair_ext.Storage.AtomicFile.{atomic_write_file}
use jupyter_pair_ext.Storage.Operations.{flush_paths, flush_one, current}
use jupyter_pair_ext.Storage.Redirects.{are_forward, resolve_current_path-settles, redirect-endless}
use jupyter_pair_ext.Storage.Ends.{Ends}
use jupyter_pair_ext.Storage.DiskLaws.{Moved, Same, Laws}
use jupyter_pair_ext.Storage.Published.{Safe, atomic_write_file-Safe}
use jupyter_pair_ext.Storage.Requeue.{is_in}
use jupyter_pair_ext.Storage.{ProjectFile}
use jupyter_pair_ext.Storage.Manifest.{Tree}
use jupyter_pair_ext.Storage.Lost.{requeue-lost}
use jupyter_pair_ext.Storage.Live.{Ended, Live, LiveHost}
use jupyter_pair_ext.Storage.FlushEnds.{flush_paths-ends}

-- A disk of files. Writing to the path "denied" fails.
abbrev Files : Type 0
Files = Map Text Bytes

abbrev set_file : Text → Bytes → World Files → World Files
set_file path bytes w = record w { disk = put path bytes w.disk }

abbrev nothing : Text → Action Files (Unit {0})
nothing path w = (ok tt, w)

abbrev place : Text → Text → Option Bytes → Action Files (Unit {0})
place from to none w = (err (system enoent), w)
place from to (some bytes) w = (ok tt, record w { disk = put to bytes (remove from w.disk) })

abbrev move_it : Text → Text → Action Files (Unit {0})
move_it from to w = place from to (get from w.disk) w

abbrev serialize_it : Text → Action Files Bytes
serialize_it path w =
    if text_eqb path (codes "denied") then (err (system eacces), w) else (ok path, w)

abbrev files_host : Host Files
files_host = record {
  normalize = λ p. p;
  fold = λ p. p;
  is_linux = true;
  folds_case = false;
  dirname = λ p. [];
  join = λ a b. a ++ (47 ∷ b);
  resolve = λ p. p;
  random_uuid = λ w. (ok (codes "000000000000000000000000000000000000"), w);
  now = λ w. 7;
  mkdir = nothing;
  create = λ p w. (ok tt, set_file p [] w);
  write_file = λ p bytes w. (ok tt, set_file p bytes w);
  open_file = nothing;
  sync_file = nothing;
  close_file = nothing;
  move_file = move_it;
  delete_file = λ p w. (ok tt, record w { disk = remove p w.disk });
  rmdir = nothing;
  lstat = λ p w. (err (system enoent), w);
  readdir = λ p w. (ok [], w);
  copy_file = λ a b w. (ok tt, w);
  hash_file = λ p w. (ok p, w);
  should_track = λ p. true;
  scan_project = λ p w. (ok [], w);
  scan_directories = λ p w. (ok [], w);
  sha256 = λ bytes. bytes;
  sort = λ xs. xs;
  serialize = serialize_it;
  write_working_copy = none;
  on_working_copy_write = λ p bytes w. (ok tt, w);
  turn = λ w. (ok tt, w);
}

abbrev adapter : Adapter
adapter = record {
  pending = [];
  redirects = (codes "a", codes "b") ∷ (codes "b", codes "c") ∷ [];
  removed = codes "a" ∷ codes "b" ∷ [];
  timer = none;
  active = true;
  backing_root = some (codes "/backing");
  last_flush_at = 0;
}

abbrev start : World Files
start = record { adapter = adapter; disk = []; flushed = [] }

resolve_current_path-settles_example :
    (current : Text) × (resolve_current_path 3 adapter (codes "a/n") ≡ ok current)
    × (redirected adapter.redirects current ≡ none)
unfolding are_forward
resolve_current_path-settles_example = resolve_current_path-settles adapter (codes "a/n") refl

abbrev still : Adapter
still = record adapter { redirects = []; removed = [] }

abbrev renamed : Adapter
renamed = (redirect (codes "b") (codes "a/y") (redirect (codes "a") (codes "b/x") still).1).1

redirect-endless_example :
    (resolve_current_path 50 renamed (codes "a/n") ≡ err endless)
    × (resolve_current_path 50 renamed (codes "b/n") ≡ err endless)
redirect-endless_example =
    redirect-endless (codes "a") (codes "b") (codes "x") (codes "y") (codes "/n") still renamed refl
      refl refl refl refl 50

abbrev flushed : Result Failure (Unit {0}) × World Files
flushed = flush_paths files_host 3 100 (codes "/w") (codes "m" ∷ codes "denied" ∷ []) start

serialize_it-Live : (rs : Map Text Text) (p : Text) → Live rs (serialize_it p)
serialize_it-Live rs p = elim (Bool-cases (text_eqb p (codes "denied"))) [
  | inl t ↦ record { run = λ w e. simp (t) (refl, e) }
  | inr n ↦ record { run = λ w e. simp (n) (refl, e) }
]

place-Ended :
    (rs : Map Text Text) (p q : Text) (o : Option Bytes) (w : World Files)
    → w.adapter.redirects ≡ rs
    → Ended rs (place p q o w)
place-Ended rs p q none w e = (refl, e)
place-Ended rs p q (some b) w e = (refl, e)

move_it-Live : (rs : Map Text Text) (p q : Text) → Live rs (move_it p q)
move_it-Live rs p q = record { run = λ w e. place-Ended rs p q (get p w.disk) w e }

files_host-LiveHost : (rs : Map Text Text) → LiveHost rs files_host
files_host-LiveHost rs = record {
  random_uuid = record { run = λ w e. (refl, e) };
  mkdir = λ p. record { run = λ w e. (refl, e) };
  create = λ p. record { run = λ w e. (refl, e) };
  write_file = λ p b. record { run = λ w e. (refl, e) };
  open_file = λ p. record { run = λ w e. (refl, e) };
  sync_file = λ p. record { run = λ w e. (refl, e) };
  close_file = λ p. record { run = λ w e. (refl, e) };
  move_file = move_it-Live rs;
  delete_file = λ p. record { run = λ w e. (refl, e) };
  lstat = λ p. record { run = λ w e. (refl, e) };
  serialize = serialize_it-Live rs;
  on_working_copy_write = λ p b. record { run = λ w e. (refl, e) };
  write_working_copy = λ write h. cc h;
}

flush_paths-ends_example :
    Ended adapter.redirects
      (flush_paths files_host 3 100 (codes "/w") (codes "a/n" ∷ codes "denied" ∷ []) start)
unfolding are_forward
flush_paths-ends_example =
    flush_paths-ends adapter.redirects refl files_host (files_host-LiveHost adapter.redirects) 100
      (codes "/w") (codes "a/n" ∷ codes "denied" ∷ []) start refl

abbrev file_content : Files → Text → Option Bytes
file_content files path = get path files

put-only :
    (p q : Text) (bytes : Bytes) (files : Files)
    → text_eqb q p ≡ false
    → get q (put p bytes files) ≡ get q files
put-only p q bytes files h =
    get-put p q bytes files ∙ ground (arith, h, text_eqb_iff p q, text_eqb_iff q p)

remove-only :
    (p q : Text) (files : Files) → text_eqb q p ≡ false → get q (remove p files) ≡ get q files
remove-only p q files h =
    get-remove p q files ∙ ground (arith, h, text_eqb_iff p q, text_eqb_iff q p)

put-here : (p : Text) (bytes : Bytes) (files : Files) → get p (put p bytes files) ≡ some bytes
put-here p bytes files = get-put p p bytes files ∙ ground (arith, text_eqb_iff p p)

remove-here : (p : Text) (files : Files) → get p (remove p files) ≡ none
remove-here p files = get-remove p p files ∙ ground (arith, text_eqb_iff p p)

place-moves :
    (from to : Text) (w : World Files) (o : Option Bytes)
    → get from w.disk ≡ o
    → Ends
        (λ x (v : World Files). Moved file_content from to w v)
        (λ v. Same file_content w v)
        (place from to o w)
place-moves from to w none e = λ q. refl
place-moves from to w (some bytes) e = (
  put-here to bytes (remove from w.disk) ∙ sym e,
  λ q a b. put-only to q bytes (remove from w.disk) b ∙ remove-only from q w.disk a,
  λ apart. put-only to from bytes (remove from w.disk) apart ∙ remove-here from w.disk,
)

files_host-Laws : Laws file_content files_host
files_host-Laws = record {
  uuid_length = λ w. (refl, λ q. refl);
  mkdir_same = λ p w q. refl;
  create_only = λ p w q h. put-only p q [] w.disk h;
  write_only = λ p b w q h. put-only p q b w.disk h;
  write_content = λ p b w. put-here p b w.disk;
  open_same = λ p w q. refl;
  sync_same = λ p w q. refl;
  close_same = λ p w q. refl;
  lstat_same = λ p w q. refl;
  delete_only = λ p w q h. remove-only p q w.disk h;
  move_moves = λ from to w. place-moves from to w (get from w.disk) refl;
}

abbrev with_file : World Files
with_file = record start { disk = (codes "t", codes "old") ∷ [] }

atomic_write_file-Safe_example :
    Ends
      (λ x (v : World Files). file_content v.disk (codes "t") ≡ some (codes "new"))
      (Safe file_content files_host files_host-Laws (codes "t") (some (codes "old")) (codes "new"))
      (atomic_write_file files_host (codes "t") (codes "new") with_file)
unfolding get
atomic_write_file-Safe_example =
    atomic_write_file-Safe file_content files_host files_host-Laws (codes "t") (some (codes "old"))
      (codes "new") with_file refl

abbrev renaming : Adapter
renaming = record adapter { redirects = (codes "p", codes "q") ∷ []; removed = codes "p" ∷ [] }

abbrev requeued : Adapter
requeued = record renaming { pending = codes "p" ∷ []; timer = some 5000 }

abbrev later : World Files
later = record start { adapter = end_redirect (codes "p") (codes "q") requeued }

requeue-lost_example :
    (is_in (codes "p") later.adapter.pending ≡ true)
    × (is_in (codes "q") later.adapter.pending ≡ false)
    × (flush_one files_host 4 100 (codes "/w") (codes "p") later ≡ (ok none, later))
unfolding requeue restore resolve_current_path follow redirected retarget is_removed end_redirect
    get remove
requeue-lost_example =
    requeue-lost files_host 100 (codes "/w") 2 (codes "p") (codes "q") renaming requeued later refl
      refl refl refl refl refl refl

abbrev one_file : Tree
one_file = record {
  documents = record { path = codes "n"; bytes = codes "abc" } ∷ [];
  binaries = [];
  directories = codes "d" ∷ [];
}

abbrev file_n : ProjectFile
file_n = record { relative_path = codes "n"; absolute_path = codes "/n"; hash = codes "abc" }
