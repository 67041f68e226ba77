-- ===== src/Examples/Links.antt =====
-- Links, imports and sealed capsules on concrete inputs.
use sealed_sky_verification.App.{
  Task, starting, awaiting_beacon, awaiting_check, awaiting_open, beacon_reply, computed, suspend,
  finish, start_unsealing, hold_ready, reveal_witnessed, run_task,
}
use sealed_sky_verification.Common.{[], ◌++◌, ◌≡◌, refl, none, some, All, arith}
use sealed_sky_verification.App.Seal.Shared.{finalise-build_share_url}
use sealed_sky_verification.App.Seal.{finalise, Request}
use sealed_sky_verification.Share.{build_share_url, parse_fragment, ImportedItem}
use sealed_sky_verification.Queue.{sealed, QueueItem}
use sealed_sky_verification.Errors.{err, type_error, ok, too_early}
use sealed_sky_verification.Common.Text.{Text, codes}
use sealed_sky_verification.Ctrng.{estimate_target_sequence, BeaconBlock}
use sealed_sky_verification.Envelope.{ParsedCtrngEnvelope}
use sealed_sky_verification.Base64.Laws.{IsByte}
use sealed_sky_verification.Codec.{is_scalar_text}
use sealed_sky_verification.Codec.Simple as SimpleCodec
use sealed_sky_verification.Symmetric.Simple as SimpleCrypto
use sealed_sky_verification.App.Seal.Opens.{
  item, parsed, run_task-seal_ctrng, run_task-seal_ctrng_early,
}
use sealed_sky_verification.Examples.Data.{codec, crypto, beacon, capsule_key, capsule_iv}

key-IsByte : All IsByte capsule_key
key-IsByte = (omega arith, (omega arith, (omega arith, tt)))

iv-IsByte : All IsByte capsule_iv
iv-IsByte = (omega arith, (omega arith, tt))

abbrev req : Request
req = record { message = codes "hi"; unlock_unix = 1990; recipient_ens = none; sender_ens = none }

abbrev capsule : QueueItem
capsule =
    item codec SimpleCodec.simple-IsCodec crypto SimpleCrypto.simple-IsCrypto capsule_key capsule_iv
      (ok beacon) (codes "a") 5000 req

abbrev carried : ParsedCtrngEnvelope
carried =
    parsed codec SimpleCodec.simple-IsCodec crypto SimpleCrypto.simple-IsCrypto capsule_key
      capsule_iv (ok beacon) (codes "a") 5000 req

run_task-seal_ctrng_example :
    (run_task codec crypto (starting capsule) computed
      ≡ suspend none (awaiting_beacon capsule carried))
    × (run_task codec crypto (awaiting_beacon capsule carried) (beacon_reply (ok beacon))
        ≡ suspend (some start_unsealing) (awaiting_check capsule carried beacon capsule_key))
    × (run_task codec crypto (awaiting_check capsule carried beacon capsule_key) computed
        ≡ suspend none (awaiting_open capsule carried beacon capsule_key))
    × (run_task codec crypto (awaiting_open capsule carried beacon capsule_key) computed
        ≡ finish (reveal_witnessed (codes "hi") beacon))
unfolding is_scalar_text estimate_target_sequence
run_task-seal_ctrng_example =
    run_task-seal_ctrng codec SimpleCodec.simple-IsCodec crypto SimpleCrypto.simple-IsCrypto
      capsule_key capsule_iv (ok beacon) (codes "a") 5000 req refl (omega arith) (omega arith, tt)
      key-IsByte iv-IsByte (λ e. cc) beacon computed (omega arith)

abbrev early_beacon : BeaconBlock
early_beacon = record beacon { timestamp = 1900 }

run_task-seal_ctrng_early_example :
    (t : Task) × (run_task codec crypto (starting capsule) computed ≡ suspend none t)
    × (run_task codec crypto t (beacon_reply (ok early_beacon))
        ≡ finish (hold_ready (too_early 40 1900 1990)))
unfolding is_scalar_text estimate_target_sequence
run_task-seal_ctrng_early_example =
    run_task-seal_ctrng_early codec SimpleCodec.simple-IsCodec crypto SimpleCrypto.simple-IsCrypto
      capsule_key capsule_iv (ok beacon) (codes "a") 5000 req refl (omega arith) (omega arith, tt)
      key-IsByte iv-IsByte (λ e. cc) early_beacon computed (omega arith)

no_text-parsed : codec.parse [] ≡ none
unfolding SimpleCodec.simple
no_text-parsed = refl

finalise-build_share_url_example :
    (hash : Text) × (link' : ImportedItem) × (it : QueueItem) × (build_share_url codec
        (codes "https://x/")
        capsule
      ≡ codes "https://x/" ++ hash)
    × (parse_fragment codec hash 9 ≡ some link')
    × (finalise codec none (err type_error) link' (codes "b") ≡ ok it)
    × (it.status ≡ sealed)
    × ((run_task codec crypto (starting it) computed ≡ suspend none (awaiting_beacon it carried))
        × (run_task codec crypto (awaiting_beacon it carried) (beacon_reply (ok beacon))
            ≡ suspend (some start_unsealing) (awaiting_check it carried beacon capsule_key))
        × (run_task codec crypto (awaiting_check it carried beacon capsule_key) computed
            ≡ suspend none (awaiting_open it carried beacon capsule_key))
        × (run_task codec crypto (awaiting_open it carried beacon capsule_key) computed
            ≡ finish (reveal_witnessed (codes "hi") beacon)))
unfolding is_scalar_text estimate_target_sequence
finalise-build_share_url_example =
    finalise-build_share_url codec SimpleCodec.simple-IsCodec SimpleCodec.simple-IsAsciiCodec
      no_text-parsed crypto SimpleCrypto.simple-IsCrypto capsule_key capsule_iv (ok beacon)
      (codes "a") 5000 req refl (omega arith) (omega arith, tt) key-IsByte iv-IsByte (λ e. cc)
      (codes "https://x/") 9 (err type_error) (codes "b") beacon computed (omega arith)
