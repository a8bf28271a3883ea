-- ===== src/Storage/Holds.antt =====
-- What a matching inspection says of a folder, by the lists of the tree alone
-- (src/core/persistence.ts: inspectMaterializedProjectTree).
use jupyter_pair_ext.Base.{
  append_empty, ◌≡◌, refl, sym, ap, ◌∙◌, subst, inl, inr, Bool, true, false, not, ◌&&◌, ◌||◌, List,
  [], ◌∷◌, ◌++◌, map, arith, Bool-cases, nat_eq, string_eq, all, any, Map, get, put, has,
}
use jupyter_pair_ext.Base.{append_assoc}
use jupyter_pair_ext.Base.Codes.{Text, text_eqb, text_eq, text_eqb_iff}
use jupyter_pair_ext.Storage.{ProjectFile, Host}
use jupyter_pair_ext.Storage.Manifest.{
  Document, Binary, Tree, filesystem_relative_key, directory_map,
}
use jupyter_pair_ext.Storage.Inspect.{expect_documents, expect_binaries, expected_files, inspection}
use jupyter_pair_ext.Storage.Agreement.{
  is_hash, has_file, has_directory, may_exist, agrees, all-cong, inspection-agrees,
}

unfoldable pub are_distinct : List Text → Bool
are_distinct [] = true
are_distinct (x ∷ xs) = not (any (text_eqb x) xs) && are_distinct xs

module _ {ℓ κ} {A : Type ℓ} {B : Type κ} (f : A → B) where
  any-map : (p : B → Bool) (xs : List A) → any p (map f xs) ≡ any (λ x. p (f x)) xs
  any-map p [] = refl
  any-map p (x ∷ xs) = ap (λ b. p (f x) || b) (any-map p xs)

  all-map : (p : B → Bool) (xs : List A) → all p (map f xs) ≡ all (λ x. p (f x)) xs
  all-map p [] = refl
  all-map p (x ∷ xs) = ap (λ b. p (f x) && b) (all-map p xs)

  pub map-append : (xs ys : List A) → map f (xs ++ ys) ≡ map f xs ++ map f ys
  map-append [] ys = refl
  map-append (x ∷ xs) ys = ap (λ l. f x ∷ l) (map-append xs ys)

any-append : (p : Text → Bool) (xs ys : List Text) → any p (xs ++ ys) ≡ (any p xs || any p ys)
any-append p [] ys = refl
any-append p (x ∷ xs) ys = ground (arith, any-append p xs ys)

-- a key among distinct ones is not before itself
distinct-fresh :
    (xs : List Text) (k : Text) (ks : List Text)
    → are_distinct (xs ++ (k ∷ ks)) ≡ true
    → any (text_eqb k) xs ≡ false
unfolding are_distinct
distinct-fresh [] k ks h = refl
distinct-fresh (x ∷ xs) k ks h =
    let rest : are_distinct (xs ++ (k ∷ ks)) ≡ true = ground (arith, h) in
    ground (
      arith,
      h,
      any-append (text_eqb x) xs (k ∷ ks),
      distinct-fresh xs k ks rest,
      text_eqb_iff k x,
      text_eqb_iff x k,
    )

module _ {V : Type 0} where
  abbrev keys_of : Map Text V → List Text
  keys_of m = map (λ e. e.0) m

  put-fresh :
      (k : Text) (v : V) (m : Map Text V)
      → any (text_eqb k) (keys_of m) ≡ false
      → put k v m ≡ m ++ ((k, v) ∷ [])
  unfolding put
  put-fresh k v [] h = refl
  put-fresh k v ((j, w) ∷ m) h =
      let other : text_eqb j k ≡ false = ground (arith, h, text_eqb_iff k j, text_eqb_iff j k) in
      let rest : any (text_eqb k) (keys_of m) ≡ false = ground (arith, h) in
      rw other (ap (λ l. (j, w) ∷ l) (put-fresh k v m rest))

  has-keys : (k : Text) (m : Map Text V) → has k m ≡ any (text_eqb k) (keys_of m)
  unfolding get
  has-keys k [] = refl
  has-keys k ((j, w) ∷ m) = elim (Bool-cases (text_eqb j k)) [
    | inl t ↦
        let u : text_eqb k j ≡ true = ground (arith, t, text_eqb_iff k j, text_eqb_iff j k) in
        rw (t, u) refl
    | inr n ↦
        let u : text_eqb k j ≡ false = ground (arith, n, text_eqb_iff k j, text_eqb_iff j k) in
        rw (n, u) (has-keys k m)
  ]

  module _ {A : Type 0} (name : A → Text) (value : A → V) where
    insert_all : List A → Map Text V → Map Text V
    insert_all [] m = m
    insert_all (x ∷ xs) m = insert_all xs (put (name x) (value x) m)

    insert_all-distinct :
        (xs : List A) (m : Map Text V)
        → are_distinct (keys_of m ++ map name xs) ≡ true
        → insert_all xs m ≡ m ++ map (λ x. (name x, value x)) xs
    unfolding insert_all
    insert_all-distinct [] m h = sym (append_empty m)
    insert_all-distinct (x ∷ xs) m h =
        let e : Text × V = (name x, value x) in
        let fresh =
          put-fresh (name x) (value x) m (distinct-fresh (keys_of m) (name x) (map name xs) h) in
        let regrouped : keys_of (m ++ (e ∷ [])) ++ map name xs
            ≡ keys_of m ++ (name x ∷ map name xs) =
          ap (λ l. l ++ map name xs) (map-append (λ (c : Text × V). c.0) m (e ∷ []))
          ∙ append_assoc (keys_of m) (name x ∷ []) (map name xs) in
        ap (insert_all xs) fresh
        ∙ insert_all-distinct xs (m ++ (e ∷ [])) (ap are_distinct regrouped ∙ h)
        ∙ append_assoc m (e ∷ []) (map (λ y. (name y, value y)) xs)

module _ {D : Type 0} (host : Host D) where
  abbrev key : Text → Text
  key = filesystem_relative_key host

  -- a file of the tree: the key of its path, and its hash
  abbrev pub entries : Tree → List (Text × Text)
  entries t =
      map (λ (d : Document). (key d.path, host.sha256 d.bytes)) t.documents
      ++ map (λ (b : Binary). (key b.path, b.hash)) t.binaries

  abbrev pub file_keys : Tree → List Text
  file_keys t =
      map (λ (d : Document). key d.path) t.documents ++ map (λ (b : Binary). key b.path) t.binaries

  abbrev pub directory_keys : Tree → List Text
  directory_keys t = map key t.directories

  -- What it means for a folder to hold a tree: each of its files is a document or a binary of the
  -- tree with the same hash, each document and binary is there, each directory of the tree is
  -- there, and each of its directories is one of the tree's or of those that may be there besides.
  unfoldable pub holds : Tree → List ProjectFile → List Text → List Text → Bool
  holds t files directories private_keys =
      all
        (λ (f : ProjectFile).
          any (λ e. text_eqb (key f.relative_path) e.0 && text_eqb f.hash e.1) (entries t))
        files
      && all (λ e. any (λ (f : ProjectFile). text_eqb e.0 (key f.relative_path)) files) (entries t)
      && all (λ d. any (λ x. text_eqb (key d) (key x)) directories) t.directories
      && all (λ x. any (text_eqb (key x)) (directory_keys t) || any (text_eqb (key x)) private_keys)
          directories

  none_there :
      (k h : Text) (m : Map Text (Text × Text))
      → any (text_eqb k) (keys_of m) ≡ false
      → any (λ e. text_eqb k e.0 && text_eqb h e.1.1) m ≡ false
  none_there k h [] n = refl
  none_there k h (e ∷ m) n =
      let rest : any (text_eqb k) (keys_of m) ≡ false = ground (arith, n) in
      ground (arith, n, none_there k h m rest)

  -- what is expected at a key, where the keys are distinct
  is_hash-any :
      (k h : Text) (m : Map Text (Text × Text))
      → are_distinct (keys_of m) ≡ true
      → is_hash host (get k m) h ≡ any (λ e. text_eqb k e.0 && text_eqb h e.1.1) m
  unfolding get are_distinct
  is_hash-any k h [] d = refl
  is_hash-any k h ((j, (p, w)) ∷ m) d = elim (Bool-cases (text_eqb j k)) [
    | inl t ↦
        let same : j ≡ k = (text_eqb_iff j k).0 t in
        let u : text_eqb k j ≡ true = (text_eqb_iff k j).1 (sym same) in
        let fresh : any (text_eqb j) (keys_of m) ≡ false = ground (arith, d) in
        let fresh' : any (text_eqb k) (keys_of m) ≡ false =
          subst (λ x. any (text_eqb x) (keys_of m) ≡ false) same fresh in
        rw (t, u) ground (arith, none_there k h m fresh')
    | inr n ↦
        let u : text_eqb k j ≡ false = ground (arith, n, text_eqb_iff k j, text_eqb_iff j k) in
        let rest : are_distinct (keys_of m) ≡ true = ground (arith, d) in
        rw (n, u) (is_hash-any k h m rest)
  ]

  -- the entry of a file of the tree in the map of what is expected
  abbrev document_entry : Document → Text × (Text × Text)
  document_entry d = (key d.path, (d.path, host.sha256 d.bytes))

  abbrev binary_entry : Binary → Text × (Text × Text)
  binary_entry b = (key b.path, (b.path, b.hash))

  abbrev listed : Tree → Map Text (Text × Text)
  listed t = map document_entry t.documents ++ map binary_entry t.binaries

  documents-insert_all :
      (ds : List Document) (m : Map Text (Text × Text))
      → expect_documents host ds m
        ≡ insert_all (λ (d : Document). key d.path) (λ d. (d.path, host.sha256 d.bytes)) ds m
  unfolding expect_documents insert_all
  documents-insert_all [] m = refl
  documents-insert_all (d ∷ ds) m =
      documents-insert_all ds (put (key d.path) (d.path, host.sha256 d.bytes) m)

  binaries-insert_all :
      (bs : List Binary) (m : Map Text (Text × Text))
      → expect_binaries host bs m
        ≡ insert_all (λ (b : Binary). key b.path) (λ b. (b.path, b.hash)) bs m
  unfolding expect_binaries insert_all
  binaries-insert_all [] m = refl
  binaries-insert_all (b ∷ bs) m = binaries-insert_all bs (put (key b.path) (b.path, b.hash) m)

  directories-insert_all :
      (ds : List Text) (m : Map Text Text) → directory_map host ds m ≡ insert_all key (λ d. d) ds m
  unfolding insert_all
  directories-insert_all [] m = refl
  directories-insert_all (d ∷ ds) m = directories-insert_all ds (put (key d) d m)

  pub map-map :
      {A B C : Type 0} (g : B → C) (f : A → B) (xs : List A)
      → map g (map f xs) ≡ map (λ x. g (f x)) xs
  map-map g f [] = refl
  map-map g f (x ∷ xs) = ap (λ l. g (f x) ∷ l) (map-map g f xs)

  keys-documents :
      (t : Tree)
      → keys_of (map document_entry t.documents) ≡ map (λ (d : Document). key d.path) t.documents
  keys-documents t = map-map (λ e. e.0) document_entry t.documents

  keys-listed : (t : Tree) → keys_of (listed t) ≡ file_keys t
  keys-listed t =
      map-append (λ e. e.0) (map document_entry t.documents) (map binary_entry t.binaries)
      ∙ ap (λ l. l ++ keys_of (map binary_entry t.binaries)) (keys-documents t)
      ∙ ap (λ l. map (λ (d : Document). key d.path) t.documents ++ l)
          (map-map (λ e. e.0) binary_entry t.binaries)

  entries-listed : (t : Tree) → map (λ e. (e.0, e.1.1)) (listed t) ≡ entries t
  entries-listed t =
      map-append (λ e. (e.0, e.1.1)) (map document_entry t.documents) (map binary_entry t.binaries)
      ∙ ap (λ l. l ++ map (λ e. (e.0, e.1.1)) (map binary_entry t.binaries))
          (map-map (λ e. (e.0, e.1.1)) document_entry t.documents)
      ∙ ap (λ l. map (λ (d : Document). (key d.path, host.sha256 d.bytes)) t.documents ++ l)
          (map-map (λ e. (e.0, e.1.1)) binary_entry t.binaries)

  distinct-left : (xs ys : List Text) → are_distinct (xs ++ ys) ≡ true → are_distinct xs ≡ true
  unfolding are_distinct
  distinct-left [] ys h = refl
  distinct-left (x ∷ xs) ys h =
      let rest : are_distinct (xs ++ ys) ≡ true = ground (arith, h) in
      ground (arith, h, any-append (text_eqb x) xs ys, distinct-left xs ys rest)

  -- where no two files have one key, all of them are expected
  expected_files-listed :
      (t : Tree) → are_distinct (file_keys t) ≡ true → expected_files host t ≡ listed t
  unfolding expected_files
  expected_files-listed t h =
      let docs = map (λ (d : Document). key d.path) t.documents in
      let first : expect_documents host t.documents [] ≡ map document_entry t.documents =
        documents-insert_all t.documents []
        ∙ insert_all-distinct (λ (d : Document). key d.path) (λ d. (d.path, host.sha256 d.bytes))
            t.documents [] (distinct-left docs (map (λ (b : Binary). key b.path) t.binaries) h) in
      ap (expect_binaries host t.binaries) first
      ∙ binaries-insert_all t.binaries (map document_entry t.documents)
      ∙ insert_all-distinct (λ (b : Binary). key b.path) (λ b. (b.path, b.hash)) t.binaries
          (map document_entry t.documents)
          (ap (λ l. are_distinct (l ++ map (λ (b : Binary). key b.path) t.binaries))
              (keys-documents t)
            ∙ h)

  directory_map-listed :
      (t : Tree)
      → are_distinct (directory_keys t) ≡ true
      → directory_map host t.directories [] ≡ map (λ d. (key d, d)) t.directories
  directory_map-listed t h =
      directories-insert_all t.directories [] ∙ insert_all-distinct key (λ d. d) t.directories [] h

  -- An inspection matches exactly when the folder holds the tree, where no two files and no two
  -- directories of the tree have one key.
  pub inspection-distinct :
      (t : Tree) (files : List ProjectFile) (directories private_keys : List Text)
      → are_distinct (file_keys t) ≡ true
      → are_distinct (directory_keys t) ≡ true
      → (inspection host t files directories private_keys).is_match
        ≡ holds t files directories private_keys
  unfolding agrees holds
  inspection-distinct t files directories private_keys h k =
      let m = listed t in
      let distinct : are_distinct (keys_of m) ≡ true = ap are_distinct (keys-listed t) ∙ h in
      let dm = map (λ d. (key d, d)) t.directories in
      let hashes : all (λ (f : ProjectFile). is_hash host (get (key f.relative_path) m) f.hash)
            files
          ≡ all
              (λ (f : ProjectFile).
                any (λ e. text_eqb (key f.relative_path) e.0 && text_eqb f.hash e.1) (entries t))
              files =
        all-cong _ _ files (λ f q.
          is_hash-any (key f.relative_path) f.hash m distinct
          ∙ sym (
              any-map (λ e. (e.0, e.1.1))
                (λ e. text_eqb (key f.relative_path) e.0 && text_eqb f.hash e.1) m)
          ∙ ap (any (λ e. text_eqb (key f.relative_path) e.0 && text_eqb f.hash e.1))
              (entries-listed t)) in
      let there : all (has_file host files) m
          ≡ all (λ e. any (λ (f : ProjectFile). text_eqb e.0 (key f.relative_path)) files)
              (entries t) =
        sym (
          all-map (λ e. (e.0, e.1.1))
            (λ e. any (λ (f : ProjectFile). text_eqb e.0 (key f.relative_path)) files) m)
        ∙ ap (all (λ e. any (λ (f : ProjectFile). text_eqb e.0 (key f.relative_path)) files))
            (entries-listed t) in
      let stand : all (has_directory host directories) dm
          ≡ all (λ d. any (λ x. text_eqb (key d) (key x)) directories) t.directories =
        all-map (λ d. (key d, d)) (has_directory host directories) t.directories in
      let allowed : all (may_exist host dm private_keys) directories
          ≡ all
              (λ x.
                any (text_eqb (key x)) (directory_keys t) || any (text_eqb (key x)) private_keys)
              directories =
        all-cong _ _ directories (λ x q.
          ap (λ b. b || any (text_eqb (key x)) private_keys)
            (has-keys (key x) dm
              ∙ ap (any (text_eqb (key x)))
                  (map-map (λ e. e.0) (λ d. (key d, d)) t.directories))) in
      inspection-agrees host t files directories private_keys
      ∙ ap
          (λ e.
            all (λ (f : ProjectFile). is_hash host (get (key f.relative_path) e) f.hash) files
            && all (has_file host files) e
            && all (has_directory host directories) (directory_map host t.directories [])
            && all (may_exist host (directory_map host t.directories []) private_keys) directories)
          (expected_files-listed t h)
      ∙ ap
          (λ e.
            all (λ (f : ProjectFile). is_hash host (get (key f.relative_path) m) f.hash) files
            && all (has_file host files) m
            && all (has_directory host directories) e
            && all (may_exist host e private_keys) directories)
          (directory_map-listed t k)
      ∙ ground (arith, hashes, there, stand, allowed)
