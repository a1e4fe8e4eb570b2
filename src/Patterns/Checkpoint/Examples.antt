-- ===== src/Patterns/Checkpoint/Examples.antt =====
-- One checkpoint, on a disk whose second renaming fails. The world is the file table, and whether the next
-- renaming succeeds.
use kagura_agent.Prelude.{
  String, ◌≡◌, refl, Bool, true, false, Option, none, some, [], Result, ok, raised, ◌⊎◌, ◌==◌,
  eq_refl, if◌then◌else◌,
}
use kagura_agent.Prelude.Dict
use kagura_agent.Prelude.Dict.{Dict, get-put}
use kagura_agent.Prelude.Json
use kagura_agent.Prelude.Json.{Value, null, int, pos, Fields, end, field, Codec}
use kagura_agent.Core.Session.{Checkpoint}
use kagura_agent.Patterns.Checkpoint.Decode.{
  corrupt, store_failed, checkpoint_value, IsStorable, decode_checkpoint,
}
use kagura_agent.Patterns.Checkpoint.File.{
  IoError, not_found, other_error, Disk, IsDisk, save_file, load_file, load_file-save_file,
}

abbrev checkpoint : Checkpoint Fields
checkpoint = record {
  session_id = "S1";
  turn = int (pos 2);
  state = field "turn" (int (pos 2)) end;
}

abbrev codec : Codec
codec = record {
  dumps = λ v. "S1 at 2";
  loads = λ s. if s == "S1 at 2" then some (checkpoint_value checkpoint) else none;
  encode = λ s. [];
  loads_bytes = λ b. none;
}

abbrev read_from : Option String → Result IoError String
read_from none = raised not_found
read_from (some s) = ok s

-- A temporary file is its content.
abbrev World : Type 0
World = Dict String × (String × Bool)

abbrev rename : String → World → Result IoError (Unit {0}) × World
rename target (files, (temp, true)) = (ok tt, (Dict.put files target temp, (temp, false)))
rename target (files, (temp, false)) = (raised other_error, (files, (temp, false)))

abbrev disk : Disk (Unit {0}) World
disk = record {
  sha256 = λ s. s;
  mkdir = λ w. (ok tt, w);
  mkstemp = λ w. (ok tt, w);
  write = λ h text w. (ok tt, (w.0, (text, w.1.1)));
  replace = λ h target w. rename target w;
  unlink_temp = λ h w. (ok tt, w);
  unlink = λ p w. (ok tt, (Dict.remove w.0 p, w.1));
  read_text = λ p w. read_from (Dict.get w.0 p);
}

rename_failed :
    (t p : String) (e : IoError) (w : World)
    → (rename t w).0 ≡ raised e
    → read_from (Dict.get (rename t w).1.0 p) ≡ read_from (Dict.get w.0 p)
rename_failed t p e (files, (temp, true)) h = absurd (cc h)
rename_failed t p e (files, (temp, false)) h = refl

rename_read :
    (t text : String) (w : World)
    → (rename t (w.0, (text, w.1.1))).0 ≡ ok tt
    → read_from (Dict.get (rename t (w.0, (text, w.1.1))).1.0 t) ≡ ok text
rename_read t text (files, (temp, true)) h = rw (get-put files t t text, eq_refl t) refl
rename_read t text (files, (temp, false)) h = absurd (cc h)

disk-IsDisk : IsDisk disk
disk-IsDisk = record {
  read-mkdir = λ p w. refl;
  read-mkstemp = λ p w. refl;
  read-write = λ h t p w. refl;
  read-unlink_temp = λ h p w. refl;
  read-replace_failed = λ h t p e w f. rename_failed t p e w f;
  read-replace = λ h t text w a b. rename_read t text w b;
}

storable : IsStorable codec checkpoint
unfolding Json.is_int
storable = record { typed_turn = refl; reads = refl }

load_file-save_file_example :
    (let (r, w') = save_file disk codec checkpoint ([], ("", true)) in
      ((r ≡ ok tt) × (load_file disk codec "S1" w' ≡ ok (some checkpoint)))
      ⊎ ((r ≡ raised store_failed)
          × ((session : String)
              → load_file disk codec session w' ≡ load_file disk codec session ([], ("", true)))))
load_file-save_file_example =
    load_file-save_file disk disk-IsDisk codec checkpoint ([], ("", true)) storable

-- A state whose turn is no int is saved, and no longer loads.
abbrev untyped : Codec
untyped = record {
  dumps = λ v. "S1 at null";
  loads = λ s. some (checkpoint_value (record checkpoint { turn = null }));
  encode = λ s. [];
  loads_bytes = λ b. none;
}

untyped_turn_corrupt : decode_checkpoint untyped "S1 at null" ≡ raised corrupt
unfolding decode_checkpoint checkpoint_value Json.get
untyped_turn_corrupt = refl
