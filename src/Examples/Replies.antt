-- ===== src/Examples/Replies.antt =====
-- The wallet and its bar on concrete replies.
use sealed_sky_verification.Common.{◌⊎◌, ◌≡◌, refl, true, false, Option, some, List, [], ◌∷◌, ◌++◌}
use sealed_sky_verification.Common.Text.{text_eq, Text, codes}
use sealed_sky_verification.Share.{truthy}
use sealed_sky_verification.Wallet.Identity.Resolved.{
  IsNamed, Reach, here, next, changes, answers, reached-IsNamed,
}
use sealed_sky_verification.Wallet.Identity.{Bar, start_search, set_address, open_bar, search_ended}
use sealed_sky_verification.Errors.{ok}
use sealed_sky_verification.Json.{nil, cons, str, arr}
use sealed_sky_verification.Wallet.{
  Event, connect_pressed, connected, accounts_changed, handle_all, open_wallet,
}
use sealed_sky_verification.Wallet.Addresses.{IsAddress, handle_all-IsAddress}

abbrev events : List Event
events =
    connect_pressed
    ∷ connected (ok (arr (cons (str (codes "0xA1")) nil), str (codes "0x1")))
    ∷ accounts_changed (arr (cons (str (codes "0xB2")) nil))
    ∷ []

handle_all-IsAddress_example :
    IsAddress (handle_all events (open_wallet true false true)).state.address
unfolding open_wallet
handle_all-IsAddress_example = handle_all-IsAddress events (open_wallet true false true) tt

-- Every account is its own name.
abbrev Answers : Text → Option Text → Type 0
Answers address name = name ≡ some address

abbrev switched : Bar
switched =
    search_ended (record { address = codes "0xb"; cancelled = false }) (some (codes "0xb"))
      ([] ++ (record { address = codes "0xa"; cancelled = true } ∷ []))
      (set_address (some (codes "0xb")) (open_bar (some (codes "0xa"))))

switched-Reach : Reach Answers (open_bar (some (codes "0xa"))) switched
unfolding open_bar set_address start_search text_eq
switched-Reach =
    next
      (next (here (open_bar (some (codes "0xa"))))
        (changes (some (codes "0xb")) (open_bar (some (codes "0xa")))))
      (answers (record { address = codes "0xb"; cancelled = false }) (some (codes "0xb")) []
        (record { address = codes "0xa"; cancelled = true } ∷ [])
        (set_address (some (codes "0xb")) (open_bar (some (codes "0xa")))) refl refl)

reached-IsNamed_example :
    IsNamed Answers switched.identity
    × ((switched.resolving ≡ true) ⊎ (switched.identity.address ≡ truthy switched.address))
reached-IsNamed_example = reached-IsNamed Answers (some (codes "0xa")) switched switched-Reach
