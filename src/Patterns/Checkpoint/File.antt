-- ===== src/Patterns/Checkpoint/File.antt =====
-- patterns/checkpoint.py: `FileCheckpointStore`. The disk is outside: a file for each session, named by its
-- digest, and temporary files `H`. Reading changes nothing.
use kagura_agent.Prelude.{
  String, ◌≡◌, refl, ap, ◌∙◌, Option, none, some, Result, ok, raised, ◌⊎◌, inl, inr, Result-cases,
  Action, ◌>>=◌,
}
use Prim.Native.String.{◌++◌ as append}
use kagura_agent.Prelude.Json.{Fields, Codec}
use kagura_agent.Core.Session.{Checkpoint}
use kagura_agent.Patterns.Checkpoint.Decode.{
  StoreError, unreadable, undeletable, store_failed, checkpoint_value, decode_checkpoint,
  IsStorable, decode_checkpoint-dumps,
}

-- `FileNotFoundError`, any other `OSError`, any other exception
pub data IoError : Type 0 where
  not_found os_error other_error : IoError

pub record Disk (H W : Type 0) : Type 0 where
  pub sha256 : String → String
  pub mkdir : W → Result IoError (Unit {0}) × W
  pub mkstemp : W → Result IoError H × W
  pub write : H → String → W → Result IoError (Unit {0}) × W
  pub replace : H → String → W → Result IoError (Unit {0}) × W
  pub unlink_temp : H → W → Result IoError (Unit {0}) × W
  pub unlink : String → W → Result IoError (Unit {0}) × W
  pub read_text : String → W → Result IoError String

unfoldable pub load_text :
    Codec → Result IoError String → Result StoreError (Option (Checkpoint Fields))
unfolding decode_checkpoint
load_text c (raised not_found) = ok none
load_text c (raised os_error) = raised unreadable
load_text c (raised other_error) = raised store_failed
load_text c (ok raw) = elim (decode_checkpoint c raw) [
  | raised e ↦ raised e
  | ok checkpoint ↦ ok (some checkpoint)
]

unfoldable pub unlink_result : Result IoError (Unit {0}) → Result StoreError (Unit {0})
unlink_result (ok _) = ok tt
unlink_result (raised not_found) = ok tt
unlink_result (raised os_error) = raised undeletable
unlink_result (raised other_error) = raised store_failed

module _ {H W : Type 0} where
  unfoldable pub checkpoint_filename : Disk H W → String → String
  checkpoint_filename disk session = append (disk.sha256 session) ".json"

  -- `except BaseException`: the temporary file goes, and the exception passes on
  unfoldable pub clean_up :
      Disk H W → H → Result IoError (Unit {0}) × W → Result StoreError (Unit {0}) × W
  clean_up disk temp (ok _, w) = (ok tt, w)
  clean_up disk temp (raised _, w) = (raised store_failed, (disk.unlink_temp temp w).1)

  -- the body of the `try`
  unfoldable pub publish : Disk H W → H → String → String → Action W IoError (Unit {0})
  publish disk temp payload target = disk.write temp payload >>= λ _. disk.replace temp target

  unfoldable pub save_payload :
      Disk H W → String → String → Result IoError H × W → Result StoreError (Unit {0}) × W
  unfolding clean_up publish
  save_payload disk payload target (raised _, w) = (raised store_failed, w)
  save_payload disk payload target (ok temp, w) =
      clean_up disk temp (publish disk temp payload target w)

  unfoldable pub make_temp : Disk H W → Action W IoError H
  make_temp disk = disk.mkdir >>= λ _. disk.mkstemp

  unfoldable pub save_file :
      Disk H W → Codec → Checkpoint Fields → W → Result StoreError (Unit {0}) × W
  unfolding make_temp save_payload checkpoint_value checkpoint_filename
  save_file disk c checkpoint w =
      save_payload disk (c.dumps (checkpoint_value checkpoint))
        (checkpoint_filename disk checkpoint.session_id) (make_temp disk w)

  unfoldable pub load_file :
      Disk H W → Codec → String → W → Result StoreError (Option (Checkpoint Fields))
  unfolding load_text checkpoint_filename
  load_file disk c session w = load_text c (disk.read_text (checkpoint_filename disk session) w)

  unfoldable pub delete_file : Disk H W → String → W → Result StoreError (Unit {0}) × W
  unfolding unlink_result checkpoint_filename
  delete_file disk session w =
      let (r, w') = disk.unlink (checkpoint_filename disk session) w in (unlink_result r, w')

  -- What a file system promises of its renaming: the target has the content that was written, all at once;
  -- what is done to directories and temporary files, and a renaming that fails, change no other file.
  pub record IsDisk (disk : Disk H W) : Type 0 where
    pub read-mkdir : (p : String) (w : W) → disk.read_text p (disk.mkdir w).1 ≡ disk.read_text p w
    pub read-mkstemp :
        (p : String) (w : W) → disk.read_text p (disk.mkstemp w).1 ≡ disk.read_text p w
    pub read-write :
        (h : H) (t p : String) (w : W) → disk.read_text p (disk.write h t w).1 ≡ disk.read_text p w
    pub read-unlink_temp :
        (h : H) (p : String) (w : W)
        → disk.read_text p (disk.unlink_temp h w).1 ≡ disk.read_text p w
    pub read-replace_failed :
        (h : H) (t p : String) (e : IoError) (w : W)
        → (disk.replace h t w).0 ≡ raised e
        → disk.read_text p (disk.replace h t w).1 ≡ disk.read_text p w
    pub read-replace :
        (h : H) (t text : String) (w : W)
        → (disk.write h text w).0 ≡ ok tt
        → (disk.replace h t (disk.write h text w).1).0 ≡ ok tt
        → disk.read_text t (disk.replace h t (disk.write h text w).1).1 ≡ ok text

  module _ (disk : Disk H W) (d : IsDisk disk) where
    -- what an attempt to write `text` to `target` leaves
    abbrev Saved : String → String → W → Result StoreError (Unit {0}) × W → Type 0
    Saved text target w (r, w') =
        ((r ≡ ok tt) × (disk.read_text target w' ≡ ok text))
        ⊎ ((r ≡ raised store_failed) × ((p : String) → disk.read_text p w' ≡ disk.read_text p w))

    publish-Saved :
        (text target : String) (h : H) (w : W)
        → Saved text target w (clean_up disk h (publish disk h text target w))
    unfolding publish clean_up
    publish-Saved text target h w = elim (Result-cases (disk.write h text w).0) [
      | inr (e, k) ↦ inr (
        rw (k, clean_up) refl,
        λ p. rw (k) (d.read-unlink_temp h p (disk.write h text w).1 ∙ d.read-write h text p w),
      )
      | inl (_, k) ↦
          let w1 = (disk.write h text w).1 in
          elim (Result-cases (disk.replace h target w1).0) [
            | inl (_, m) ↦ inl (rw (k, m) refl, rw (k, m) (d.read-replace h target text w k m))
            | inr (e, m) ↦ inr (
              rw (k, m) refl,
              λ p.
                  rw (k, m)
                    (d.read-unlink_temp h p (disk.replace h target w1).1
                      ∙ d.read-replace_failed h target p e w1 m
                      ∙ d.read-write h text p w),
            )
          ]
    ]

    save_payload-Saved :
        (text target : String) (w : W)
        → Saved text target w (save_payload disk text target (make_temp disk w))
    unfolding save_payload make_temp
    save_payload-Saved text target w = elim (Result-cases (disk.mkdir w).0) [
      | inr (e, k) ↦ inr (rw (k) refl, λ p. rw (k) (d.read-mkdir p w))
      | inl (_, k) ↦
          let w1 = (disk.mkdir w).1 in
          elim (Result-cases (disk.mkstemp w1).0) [
            | inr (e, m) ↦
                inr (rw (k, m) refl, λ p. rw (k, m) (d.read-mkstemp p w1 ∙ d.read-mkdir p w))
            | inl (h, m) ↦
                rw (k, m)
                  (elim (publish-Saved text target h (disk.mkstemp w1).1) [
                    | inl s ↦ inl s
                    | inr (r, s) ↦ inr (r, λ p. s p ∙ d.read-mkstemp p w1 ∙ d.read-mkdir p w)
                  ])
          ]
    ]

    -- A save on disk either returns, and the session's checkpoint loads back as it was saved, or raises,
    -- and every session loads as before it; for a checkpoint whose turn is an int and that the codec
    -- reads back, on a file system whose renaming publishes a file as a whole.
    pub load_file-save_file :
        (c : Codec) (checkpoint : Checkpoint Fields) (w : W)
        → IsStorable c checkpoint
        → (let (r, w') = save_file disk c checkpoint w in
            ((r ≡ ok tt) × (load_file disk c checkpoint.session_id w' ≡ ok (some checkpoint)))
            ⊎ ((r ≡ raised store_failed)
                × ((session : String) → load_file disk c session w' ≡ load_file disk c session w)))
    unfolding save_file load_file
    load_file-save_file c checkpoint w h =
        let target = checkpoint_filename disk checkpoint.session_id in
        elim (save_payload-Saved (c.dumps (checkpoint_value checkpoint)) target w) [
          | inl (r, s) ↦ inl (r, rw (s, load_text, decode_checkpoint-dumps c checkpoint h) refl)
          | inr (r, s) ↦ inr (r, λ session. ap (load_text c) (s (checkpoint_filename disk session)))
        ]
