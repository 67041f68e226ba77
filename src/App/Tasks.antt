-- ===== src/App/Tasks.antt =====
-- What a task knows where it waits, and that each of its steps is justified by it.
use sealed_sky_verification.Common.{
  ℕ, ◌≤◌, ◌≡◌, refl, true, false, Bool, Bool-cases, inl, inr, Option, none, some, [], ◌∷◌, arith,
}
use sealed_sky_verification.Common.Text.{Text}
use sealed_sky_verification.Bytes.{Bytes, b64_to_bytes}
use sealed_sky_verification.Codec.{Codec}
use sealed_sky_verification.Errors.{Result, ok, err, bad_base64, or_throw}
use sealed_sky_verification.Ctrng.{BeaconBlock}
use sealed_sky_verification.Symmetric.{Crypto, verify_commitment, sym_open}
use sealed_sky_verification.Envelope.{ParsedEnvelope, ParsedCtrngEnvelope, unpack_ctrng}
use sealed_sky_verification.Queue.{Backend, drand, ctrng, QueueItem}
use sealed_sky_verification.App.{
  Patch, Task, starting, awaiting_round, awaiting_plain, awaiting_beacon, awaiting_check,
  awaiting_open, task_item, Reply, round_reply, plain_reply, beacon_reply, computed, Progress,
  suspend, finish, is_early, key_text, run_task, begin_drand, begin_ctrng, begin_ctrng_with,
  begin_backend, after_round, after_key, after_beacon, after_check, after_open,
}
use sealed_sky_verification.App.Patches.{IsSoundPatch, Settles}

module _ (c : Codec) (k : Crypto) where
  abbrev pub KnowsKey : QueueItem → ParsedCtrngEnvelope → BeaconBlock → Bytes → Type 0
  KnowsKey it parsed w key =
      (unpack_ctrng c it.envelope ≡ ok parsed)
      × (is_early w parsed.unlock_unix ≡ false)
      × (or_throw bad_base64 (b64_to_bytes (key_text it.ctrng_key_b64)) ≡ ok key)

  abbrev pub IsSoundTask : Task → Type 0
  IsSoundTask (starting it) = Unit
  IsSoundTask (awaiting_round it round) = it.backend ≡ drand
  IsSoundTask (awaiting_plain it ct) = it.backend ≡ drand
  IsSoundTask (awaiting_beacon it parsed) = unpack_ctrng c it.envelope ≡ ok parsed
  IsSoundTask (awaiting_check it parsed w key) = KnowsKey it parsed w key
  IsSoundTask (awaiting_open it parsed w key) =
      KnowsKey it parsed w key
      × (verify_commitment c k parsed.commit key parsed.iv parsed.unlock_unix ≡ ok true)

  abbrev pub IsSoundOption : QueueItem → Option Patch → Type 0
  IsSoundOption it none = Unit
  IsSoundOption it (some p) = IsSoundPatch c k it p

  abbrev pub IsSoundProgress : QueueItem → Progress → Type 0
  IsSoundProgress it (suspend p t) = (task_item t ≡ it) × IsSoundOption it p × IsSoundTask t
  IsSoundProgress it (finish p) = IsSoundPatch c k it p × Settles p

  -- A commitment that is verified has an unlock time, and the block is not before it.
  unlock_of :
      (it : QueueItem) (parsed : ParsedCtrngEnvelope) (w : BeaconBlock) (key : Bytes)
      → is_early w parsed.unlock_unix ≡ false
      → verify_commitment c k parsed.commit key parsed.iv parsed.unlock_unix ≡ ok true
      → (u : ℕ) × (parsed.unlock_unix ≡ some u) × (u ≤ w.timestamp)
  unfolding verify_commitment
  unlock_of it parsed w key e v = go parsed.unlock_unix refl
    where
      go :
          (o : Option ℕ)
          → parsed.unlock_unix ≡ o
          → (u : ℕ) × (parsed.unlock_unix ≡ some u) × (u ≤ w.timestamp)
      go none p = cc (rw p at v)
      go (some u) p = (u, p, ground arith)

  after_open-IsSound :
      (it : QueueItem) (parsed : ParsedCtrngEnvelope) (w : BeaconBlock) (key : Bytes)
      (r : Result Text)
      → sym_open c k parsed.ct parsed.iv key ≡ r
      → IsSoundTask (awaiting_open it parsed w key)
      → IsSoundProgress it (after_open w r)
  unfolding after_open
  after_open-IsSound it parsed w key (err e) h s = (tt, tt)
  after_open-IsSound it parsed w key (ok text) h ((unpacked, early, decoded), verified) =
      let (u, has, due) = unlock_of it parsed w key early verified in
      (
        record {
          parsed = parsed;
          key = key;
          unlock = u;
          unpacked = unpacked;
          key_decoded = decoded;
          has_unlock = has;
          due = due;
          verified = verified;
          opened = h;
        },
        tt,
      )

  after_check-IsSound :
      (it : QueueItem) (parsed : ParsedCtrngEnvelope) (w : BeaconBlock) (key : Bytes)
      (r : Result Bool)
      → verify_commitment c k parsed.commit key parsed.iv parsed.unlock_unix ≡ r
      → KnowsKey it parsed w key
      → IsSoundProgress it (after_check it parsed w key r)
  unfolding after_check
  after_check-IsSound it parsed w key (err e) h s = (tt, tt)
  after_check-IsSound it parsed w key (ok false) h s = (tt, tt)
  after_check-IsSound it parsed w key (ok true) h s = (refl, tt, (s, h))

  after_key-IsSound :
      (it : QueueItem) (parsed : ParsedCtrngEnvelope) (w : BeaconBlock) (r : Result Bytes)
      → or_throw bad_base64 (b64_to_bytes (key_text it.ctrng_key_b64)) ≡ r
      → unpack_ctrng c it.envelope ≡ ok parsed
      → is_early w parsed.unlock_unix ≡ false
      → IsSoundProgress it (after_key it parsed w r)
  unfolding after_key
  after_key-IsSound it parsed w (err e) h s e' = (tt, tt)
  after_key-IsSound it parsed w (ok key) h s e' = (refl, tt, (s, e', h))

  after_beacon-IsSound :
      (it : QueueItem) (parsed : ParsedCtrngEnvelope) (w : BeaconBlock)
      → unpack_ctrng c it.envelope ≡ ok parsed
      → IsSoundProgress it (after_beacon it parsed w)
  unfolding after_beacon
  after_beacon-IsSound it parsed w s = elim (Bool-cases (is_early w parsed.unlock_unix)) [
    | inl e ↦ rw e (tt, tt)
    | inr e ↦ rw e (after_key-IsSound it parsed w _ refl s e)
  ]

  after_round-IsSound :
      (it : QueueItem) (r : Result ParsedEnvelope)
      → it.backend ≡ drand
      → IsSoundProgress it (after_round it r)
  unfolding after_round
  after_round-IsSound it (err e) b = (tt, tt)
  after_round-IsSound it (ok parsed) b = (refl, tt, b)

  begin_ctrng_with-IsSound :
      (it : QueueItem) (r : Result ParsedCtrngEnvelope)
      → unpack_ctrng c it.envelope ≡ r
      → IsSoundProgress it (begin_ctrng_with it r)
  unfolding begin_ctrng_with
  begin_ctrng_with-IsSound it (err e) h = (tt, tt)
  begin_ctrng_with-IsSound it (ok parsed) h = (refl, tt, h)

  begin_ctrng-IsSound :
      (it : QueueItem) (key : Option Text) → IsSoundProgress it (begin_ctrng c k it key)
  unfolding begin_ctrng
  begin_ctrng-IsSound it none = (tt, tt)
  begin_ctrng-IsSound it (some []) = (tt, tt)
  begin_ctrng-IsSound it (some (x ∷ key)) = begin_ctrng_with-IsSound it _ refl

  begin_drand-IsSound :
      (it : QueueItem) (round : Option ℕ)
      → it.backend ≡ drand
      → IsSoundProgress it (begin_drand it round)
  unfolding begin_drand
  begin_drand-IsSound it none b = (tt, tt)
  begin_drand-IsSound it (some round) b = (refl, tt, b)

  begin_backend-IsSound :
      (it : QueueItem) (b : Backend) → it.backend ≡ b → IsSoundProgress it (begin_backend c k b it)
  unfolding begin_backend
  begin_backend-IsSound it drand e = begin_drand-IsSound it it.round e
  begin_backend-IsSound it ctrng e = begin_ctrng-IsSound it it.ctrng_key_b64

  -- Whatever a task is told, its next step is justified by what it knows.
  pub run_task-IsSound :
      (t : Task) (reply : Reply)
      → IsSoundTask t
      → IsSoundProgress (task_item t) (run_task c k t reply)
  unfolding run_task
  run_task-IsSound (starting it) reply s = begin_backend-IsSound it it.backend refl
  run_task-IsSound (awaiting_round it round) (round_reply (err e)) s = (tt, tt)
  run_task-IsSound (awaiting_round it round) (round_reply (ok none)) s = (tt, tt)
  run_task-IsSound (awaiting_round it round) (round_reply (ok (some sig))) s =
      after_round-IsSound it _ s
  run_task-IsSound (awaiting_plain it ct) (plain_reply (err e)) s = (tt, tt)
  run_task-IsSound (awaiting_plain it ct) (plain_reply (ok text)) s = (s, tt)
  run_task-IsSound (awaiting_beacon it parsed) (beacon_reply (err e)) s = (tt, tt)
  run_task-IsSound (awaiting_beacon it parsed) (beacon_reply (ok w)) s =
      after_beacon-IsSound it parsed w s
  run_task-IsSound (awaiting_check it parsed w key) computed s =
      after_check-IsSound it parsed w key _ refl s
  run_task-IsSound (awaiting_open it parsed w key) computed s =
      after_open-IsSound it parsed w key _ refl s
  run_task-IsSound t _ s = (refl, tt, s)
