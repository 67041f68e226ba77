-- ===== src/App/Patches.antt =====
-- What an update of an item leaves alone, and when it may show a plaintext.
use sealed_sky_verification.Common.{sym, ℕ, ◌≤◌, ◌≡◌, ◌≢◌, refl, true, some}
use sealed_sky_verification.Common.Text.{Text}
use sealed_sky_verification.Bytes.{Bytes, b64_to_bytes}
use sealed_sky_verification.Codec.{Codec}
use sealed_sky_verification.Errors.{ok, bad_base64, or_throw}
use sealed_sky_verification.Ctrng.{BeaconBlock}
use sealed_sky_verification.Symmetric.{Crypto, verify_commitment, sym_open}
use sealed_sky_verification.Envelope.{ParsedCtrngEnvelope, unpack_ctrng}
use sealed_sky_verification.Queue.{drand, ctrng, unsealing, unsealed, QueueItem}
use sealed_sky_verification.App.{
  Patch, mark_ready, hold_ready, start_unsealing, reveal, reveal_witnessed, fail, published,
  publish_failed, apply_patch, key_text,
}

-- Items with one id are the same capsule: backend, envelope and key agree.
abbrev pub SameCapsule : QueueItem → QueueItem → Type 0
SameCapsule it x =
    it.id ≡ x.id
    → (it.backend ≡ x.backend) × (it.envelope ≡ x.envelope) × (it.ctrng_key_b64 ≡ x.ctrng_key_b64)

-- `text` is what the capsule's key opens after block `w`: the envelope unpacks, the block's time is
-- not before its unlock time, the commitment is right, and the ciphertext decrypts to `text`.
pub record Opened (c : Codec) (k : Crypto) (it : QueueItem) (text : Text) (w : BeaconBlock)
    : Type 0 where
  pub parsed : ParsedCtrngEnvelope
  pub key : Bytes
  pub unlock : ℕ
  pub unpacked : unpack_ctrng c it.envelope ≡ ok parsed
  pub key_decoded : or_throw bad_base64 (b64_to_bytes (key_text it.ctrng_key_b64)) ≡ ok key
  pub has_unlock : parsed.unlock_unix ≡ some unlock
  pub due : unlock ≤ w.timestamp
  pub verified : verify_commitment c k parsed.commit key parsed.iv parsed.unlock_unix ≡ ok true
  pub opened : sym_open c k parsed.ct parsed.iv key ≡ ok text

-- What an item shows as unsealed by the beacon was opened after a block that is recorded in it.
abbrev pub Justified : Codec → Crypto → QueueItem → Type 0
Justified c k it =
    it.backend ≡ ctrng
    → it.status ≡ unsealed
    → (text : Text) × (w : BeaconBlock) × Opened c k it text w
      × (it.plaintext ≡ some text)
      × (it.ctrng_witness_timestamp ≡ some w.timestamp)
      × (it.ctrng_witness_sequence ≡ some w.sequence)

-- When a task on `x` may make an update.
abbrev pub IsSoundPatch : Codec → Crypto → QueueItem → Patch → Type 0
IsSoundPatch c k x (reveal text) = x.backend ≡ drand
IsSoundPatch c k x (reveal_witnessed text w) = Opened c k x text w
IsSoundPatch c k x _ = Unit

-- Updates that leave an item settled, as the last one of a task does.
abbrev pub Settles : Patch → Type 0
Settles start_unsealing = ⊥
Settles (published _) = ⊥
Settles (publish_failed _) = ⊥
Settles _ = Unit

module _ (c : Codec) (k : Crypto) where
  Opened-transport :
      (it x : QueueItem) (text : Text) (w : BeaconBlock)
      → it.envelope ≡ x.envelope
      → it.ctrng_key_b64 ≡ x.ctrng_key_b64
      → Opened c k x text w
      → Opened c k it text w
  Opened-transport it x text w e e' o = record {
    parsed = o.parsed;
    key = o.key;
    unlock = o.unlock;
    unpacked = rw e o.unpacked;
    key_decoded = rw e' o.key_decoded;
    has_unlock = o.has_unlock;
    due = o.due;
    verified = o.verified;
    opened = o.opened;
  }

  Opened-copy :
      (it x : QueueItem) (text : Text) (w : BeaconBlock)
      → it.envelope ≡ x.envelope
      → it.ctrng_key_b64 ≡ x.ctrng_key_b64
      → Opened c k it text w
      → Opened c k x text w
  Opened-copy it x text w e e' o = Opened-transport x it text w (sym e) (sym e') o

  pub apply_patch-Justified :
      (p : Patch) (it x : QueueItem)
      → (it.backend ≡ x.backend) × (it.envelope ≡ x.envelope) × (it.ctrng_key_b64 ≡ x.ctrng_key_b64)
      → IsSoundPatch c k x p
      → Justified c k it
      → Justified c k (apply_patch p it)
  unfolding apply_patch
  apply_patch-Justified mark_ready it x same s h = λ b u. cc
  apply_patch-Justified (hold_ready e) it x same s h = λ b u. cc
  apply_patch-Justified start_unsealing it x same s h = λ b u. cc
  apply_patch-Justified (fail e) it x same s h = λ b u. cc
  apply_patch-Justified (reveal text) it x (same, _, _) s h = λ b u. cc
  apply_patch-Justified (reveal_witnessed text w) it x (_, e, e') s h = λ b u.
      let it' = apply_patch (reveal_witnessed text w) it in
      (
        text,
        w,
        Opened-copy it it' text w refl refl (Opened-transport it x text w e e' s),
        refl,
        refl,
        refl,
      )
  apply_patch-Justified (published fqn) it x same s h = λ b u.
      let (text, w, o, p, t, q) = h b u in
      (text, w, Opened-copy it (apply_patch (published fqn) it) text w refl refl o, p, t, q)
  apply_patch-Justified (publish_failed e) it x same s h = λ b u.
      let (text, w, o, p, t, q) = h b u in
      (text, w, Opened-copy it (apply_patch (publish_failed e) it) text w refl refl o, p, t, q)

-- No update changes the capsule.
pub apply_patch-SameCapsule :
    (p : Patch) (it x : QueueItem) → SameCapsule it x → SameCapsule (apply_patch p it) x
unfolding apply_patch
apply_patch-SameCapsule mark_ready it x h = h
apply_patch-SameCapsule _ it x h = h

pub apply_patch-id : (p : Patch) (it : QueueItem) → (apply_patch p it).id ≡ it.id
unfolding apply_patch
apply_patch-id mark_ready it = refl
apply_patch-id _ it = refl

pub settled_of_Settles :
    (p : Patch) (it : QueueItem) → Settles p → (apply_patch p it).status ≢ unsealing
unfolding apply_patch
settled_of_Settles mark_ready it s = λ e. cc
settled_of_Settles (hold_ready x) it s = λ e. cc
settled_of_Settles start_unsealing it s = absurd s
settled_of_Settles (reveal t) it s = λ e. cc
settled_of_Settles (reveal_witnessed t w) it s = λ e. cc
settled_of_Settles (fail x) it s = λ e. cc
settled_of_Settles (published x) it s = absurd s
settled_of_Settles (publish_failed x) it s = absurd s
