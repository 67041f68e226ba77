-- ===== src/View/Copying.antt =====
-- components/Detail.tsx: the two buttons that copy, and what they say. The clipboard and the timers
-- of the browser are explicit; what is copied is written before the button says so.
use sealed_sky_verification.Common.{ℕ, suc, ◌-◌, ◌<◌, ◌≢◌, refl, Option, none, some, arith}
use sealed_sky_verification.Common.Text.{Text, codes}
use sealed_sky_verification.Codec.{Codec}
use sealed_sky_verification.Queue.{QueueItem}
use sealed_sky_verification.Share.{build_share_url}

pub data CopyState : Type 0 where
  idle copied_envelope copied_link : CopyState

pub record Copying : Type 0 where
  pub copied : CopyState
  pub clipboard : Option Text
  -- the timers that are to set `copied` to idle
  pub timers : ℕ

abbrev pub first_copying : Copying
first_copying = record { copied = idle; clipboard = none; timers = 0 }

-- The rest of a click, the clipboard having been written.
abbrev pub said : CopyState → Text → Copying → Copying
said state text v = record v { copied = state; clipboard = some text; timers = suc v.timers }

module _ (c : Codec) (base : Text) where
  unfoldable pub copy_envelope : QueueItem → Copying → Copying
  copy_envelope item v = said copied_envelope item.envelope v

  unfoldable pub copy_share_url : QueueItem → Copying → Copying
  unfolding build_share_url
  copy_share_url item v = said copied_link (build_share_url c base item) v

unfoldable pub timer_fired : Copying → Copying
timer_fired v = record v { copied = idle; timers = v.timers - 1 }

abbrev pub envelope_label : CopyState → Text
envelope_label copied_envelope = codes "copied!"
envelope_label _ = codes "copy envelope"

abbrev pub link_label : CopyState → Text
link_label copied_link = codes "copied!"
link_label _ = codes "copy reopen link"

module _ (c : Codec) (base : Text) where
  pub data Step : Copying → Copying → Type 0 where
    copies_envelope : (item : QueueItem) (v : Copying) → Step v (copy_envelope c base item v)
    copies_link : (item : QueueItem) (v : Copying) → Step v (copy_share_url c base item v)
    fires : (v : Copying) → 0 < v.timers → Step v (timer_fired v)

  pub data Reach : Copying → Copying → Type 0 where
    here : (v : Copying) → Reach v v
    next : {u v w : Copying} → Reach u v → Step v w → Reach u w

module _ (c : Codec) (base : Text) where
  -- What a button says ends: while it says that something is copied a timer is running.
  abbrev IsEnding : Copying → Type 0
  IsEnding v = v.copied ≢ idle → 0 < v.timers

  Step-IsEnding : {v w : Copying} → Step c base v w → IsEnding v → IsEnding w
  unfolding copy_envelope copy_share_url timer_fired
  Step-IsEnding (copies_envelope item v) h = λ n. omega arith
  Step-IsEnding (copies_link item v) h = λ n. omega arith
  Step-IsEnding (fires v t) h = λ n. absurd (n refl)

  Reach-IsEnding : {v w : Copying} → Reach c base v w → IsEnding v → IsEnding w
  Reach-IsEnding (here v) h = h
  Reach-IsEnding (next r s) h = Step-IsEnding s (Reach-IsEnding r h)

  -- Whatever is copied and whichever timers have fired, in any order, since the detail was shown: a
  -- button says that something is copied only while a timer runs that ends it.
  copied-timers : (v : Copying) → Reach c base first_copying v → v.copied ≢ idle → 0 < v.timers
  copied-timers v r n = Reach-IsEnding r (λ m. absurd (m refl)) n
