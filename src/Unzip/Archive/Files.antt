-- ===== src/Unzip/Archive/Files.antt =====
-- `get_files` lists every entry.
use bkjs_utils.Prelude.{
  ℕ, zero, suc, ◌<◌, ◌≡◌, refl, arith, ap, subst, ◌∙◌, sym, Bytes, List, [], ◌∷◌, ◌++◌, false, some,
  length, append_assoc, map,
}
use bkjs_utils.Prelude.Int.{ℤ, as_int}
use bkjs_utils.Unzip.Cipher.{Keys}
use bkjs_utils.Unzip.Entry.{Tm, Info}
use bkjs_utils.Unzip.Directory.{Unzip, open_archive}
use bkjs_utils.Unzip.Directory.Walk.{IsDirectory, at, next_file-at, next_file-last}
use bkjs_utils.Unzip.File.{Zlib, File, open_file}
use bkjs_utils.Unzip.Archive.{list_files, get_files}
use bkjs_utils.Unzip.Archive.Find.{answers-at}

-- What is listed of an entry: its name, and its size converted to `int`.
abbrev pub listed : Info → Bytes × ℤ
listed e = (e.file, as_int e.uncompressed_size)

module _ {Z : Type 0} (zlib : Zlib Z) (mktime : Tm → ℕ) (file : Bytes) (unz : Unzip)
    (keys : Keys) where
  -- `open_file` succeeds at every entry.
  abbrev pub AllOpen : List Info → Type 0
  AllOpen es =
      (passed : List Info) (e : Info) (todo : List Info)
      → es ≡ passed ++ e ∷ todo
      → (f : File Z) × (open_file zlib file (at unz passed e) keys false [] ≡ some f)

  list_files-at :
      (rounds : ℕ) (es passed : List Info) (e : Info) (todo : List Info)
      → IsDirectory mktime file unz es
      → AllOpen es
      → es ≡ passed ++ e ∷ todo
      → length todo < rounds
      → list_files mktime file zlib rounds (at unz passed e) keys ≡ map listed (e ∷ todo)
  unfolding list_files
  list_files-at zero es passed e todo dir opens here h = absurd (omega arith)
  list_files-at (suc rounds) es passed e [] dir opens here h =
      let (f, opened) = opens passed e [] here in
      let dir' = subst (IsDirectory mktime file unz) here dir in
      let (name, (size, _)) = answers-at mktime file unz passed e [] dir' in
      rw (list_files, opened, next_file-last mktime file unz passed e dir', name, size)
  list_files-at (suc rounds) es passed e (e' ∷ todo) dir opens here h =
      let (f, opened) = opens passed e (e' ∷ todo) here in
      let dir' = subst (IsDirectory mktime file unz) here dir in
      let (name, (size, _)) = answers-at mktime file unz passed e (e' ∷ todo) dir' in
      let next = next_file-at mktime file unz passed e e' todo dir' in
      let further = here ∙ sym (append_assoc passed (e ∷ []) (e' ∷ todo)) in
      rw (list_files, opened, next, name, size, next)
        (ap (λ t. listed e ∷ t)
          (list_files-at rounds es (passed ++ e ∷ []) e' todo dir opens further (omega arith)))

  -- If the archive opens in a well-formed directory, at the first entry, and every entry opens,
  -- `get_files` lists the names of all entries and their sizes, converted to `int`, in their order;
  -- as many rounds as there are entries are enough.
  pub get_files-all :
      (start : Unzip) (rounds : ℕ) (e : Info) (es : List Info)
      → open_archive mktime file start ≡ some (at unz [] e)
      → IsDirectory mktime file unz (e ∷ es)
      → AllOpen (e ∷ es)
      → length es < rounds
      → get_files mktime file zlib rounds start keys ≡ map listed (e ∷ es)
  unfolding get_files
  get_files-all start rounds e es opens dir all h =
      rw (get_files, opens) (list_files-at rounds (e ∷ es) [] e es dir all refl h)
