-- ===== src/Leader.antt =====
-- pkg/leader/locks/file.go: the record of a leader election in a file.
use nah.Prelude.{Text, codes, text_eq, if◌then◌else◌, Option, none, some, Bool, is_some}
use nah.Error.{Error, message, api, not_found, Result, ok, err}

-- How a file is opened: O_RDONLY, O_CREATE|O_EXCL|O_WRONLY, and O_WRONLY|O_TRUNC.
pub data Mode : Type 0 where
  read_only exclusive truncating : Mode

-- The file system: to open a file may fail, since it does not exist or for another reason. Records
-- are texts as JSON encodes them.
pub record Files (W : Type 0) : Type 0 where
  pub open_file : Text → Mode → W → Option Error × W
  pub is_not_exist : Error → Bool
  pub read_all : Text → W → Result Text × W
  pub write : Text → Text → W → Option Error × W

-- A lock remembers the record that it read or wrote last.
pub record FileLock (R : Type 0) : Type 0 where
  pub id : Text
  pub file : Text
  pub lease : Option R

module _ {W R : Type 0} (files : Files W) (decode : Text → Result R) (encode : R → Result Text)
    (empty_record : R) where
  abbrev pub leased : FileLock R → Result R → Text → W → Result (R × Text) × FileLock R × W
  leased l (err e) bytes w = (err e, l, w)
  leased l (ok r) bytes w = (ok (r, bytes), record l { lease = some r }, w)

  abbrev pub read_lease : FileLock R → Result Text × W → Result (R × Text) × FileLock R × W
  read_lease l (err e, w) = (err e, l, w)
  read_lease l (ok bytes, w) = leased l (decode bytes) bytes w

  abbrev pub opened : FileLock R → Option Error × W → Result (R × Text) × FileLock R × W
  opened l (none, w) = read_lease l (files.read_all l.file w)
  opened l (some e, w) = (err (if files.is_not_exist e then api not_found else e), l, w)

  -- lock.Get
  unfoldable pub get_lease : FileLock R → W → Result (R × Text) × FileLock R × W
  get_lease l w = opened l (files.open_file l.file read_only w)

  abbrev pub after_write : FileLock R → R → Option Error × W → Option Error × FileLock R × W
  after_write l r (some e, w) = (some e, l, w)
  after_write l r (none, w) = (none, record l { lease = some r }, w)

  abbrev pub write_encoded : FileLock R → R → W → Result Text → Option Error × FileLock R × W
  write_encoded l r w (err e) = (some e, l, w)
  write_encoded l r w (ok text) = after_write l r (files.write l.file text w)

  abbrev pub write_opened : FileLock R → R → Option Error × W → Option Error × FileLock R × W
  write_opened l r (some e, w) = (some e, l, w)
  write_opened l r (none, w) = write_encoded l r w (encode r)

  -- lock.writeToFile
  unfoldable pub write_to_file : R → Mode → FileLock R → W → Option Error × FileLock R × W
  write_to_file r mode l w = write_opened l r (files.open_file l.file mode w)

  abbrev pub created_lease : Option Error × FileLock R × W → Option Error × FileLock R × W
  created_lease (some e, l, w) = (some e, record l { lease = none }, w)
  created_lease (none, l, w) = (none, l, w)

  -- lock.Create
  unfoldable pub create_lease : R → FileLock R → W → Option Error × FileLock R × W
  unfolding write_to_file
  create_lease r l w =
      created_lease (write_to_file r exclusive (record l { lease = some empty_record }) w)

  -- lock.Update
  unfoldable pub update_lease : R → FileLock R → W → Option Error × FileLock R × W
  unfolding write_to_file
  update_lease r l w =
      if is_some l.lease
      then write_to_file r truncating l w
      else (some (message (codes "lease not initialized, call get or create first")), l, w)
