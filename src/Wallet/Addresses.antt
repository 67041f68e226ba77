-- ===== src/Wallet/Addresses.antt =====
-- What the page takes for an address, and what a disconnection leaves.
use sealed_sky_verification.Wallet.{
  is_there, no_wallet, Wallet, is_hex_text, as_hex, first_account, write_preferred, reconnect,
  on_accounts, on_chain, begin_connect, end_connect, disconnect, Event, reconnected, connected,
  accounts_changed, chain_changed, connect_pressed, disconnect_pressed, handle, handle_all,
  open_wallet, read_preferred,
}
use sealed_sky_verification.Common.{
  ◌≡◌, refl, true, false, Bool, Option, none, some, List, [], ◌∷◌, arith, if◌then◌else◌, Bool-cases,
  inl, inr,
}
use sealed_sky_verification.Common.Text.{Text}
use sealed_sky_verification.Errors.{ok, err}
use sealed_sky_verification.Json.{Json, nil, cons, null, bool, num, str, arr, obj}

abbrev pub IsAddress : Option Text → Type 0
IsAddress none = Unit
IsAddress (some a) = is_hex_text a ≡ true

as_hex-IsAddress : (v : Json) → IsAddress (as_hex v)
unfolding as_hex
as_hex-IsAddress (str s) = elim (Bool-cases (is_hex_text s)) [
  | inl e ↦ rw (e, as_hex) e
  | inr e ↦ rw (e, as_hex) tt
]
as_hex-IsAddress null = tt
as_hex-IsAddress (bool b) = tt
as_hex-IsAddress (num n) = tt
as_hex-IsAddress (arr vs) = tt
as_hex-IsAddress (obj fs) = tt

first_account-IsAddress : (v : Json) → IsAddress (first_account v)
unfolding first_account
first_account-IsAddress (arr (cons v vs)) = as_hex-IsAddress v
first_account-IsAddress (arr nil) = tt
first_account-IsAddress null = tt
first_account-IsAddress (bool b) = tt
first_account-IsAddress (num n) = tt
first_account-IsAddress (str s) = tt
first_account-IsAddress (obj fs) = tt

either :
    (b : Bool) (v w : Wallet)
    → IsAddress v.state.address
    → IsAddress w.state.address
    → IsAddress (if b then v else w).state.address
either true v w h k = h
either false v w h k = k

handle-IsAddress :
    (e : Event) (w : Wallet) → IsAddress w.state.address → IsAddress (handle e w).state.address
unfolding handle reconnect on_accounts write_preferred on_chain begin_connect end_connect disconnect
handle-IsAddress (reconnected (err e)) w h = h
handle-IsAddress (reconnected (ok (a, v))) w h = first_account-IsAddress a
handle-IsAddress (connected (err e)) w h = h
handle-IsAddress (connected (ok (a, v))) w h = first_account-IsAddress a
handle-IsAddress (accounts_changed v) w h =
    either (is_there (first_account v))
      (record w { state = record w.state { address = first_account v } })
      (write_preferred false (record w { state = record w.state { address = first_account v } }))
      (first_account-IsAddress v) (first_account-IsAddress v)
handle-IsAddress (chain_changed v) w h = h
handle-IsAddress connect_pressed w h =
    either w.state.installed
      (record w { state = record w.state { connecting = true; error = none } })
      (record w { state = record w.state { error = some no_wallet } }) h h
handle-IsAddress disconnect_pressed w h = tt

-- Whatever the wallet answers and reports, in any order, the address that the page holds is absent
-- or `0x` and hexadecimal digits.
pub handle_all-IsAddress :
    (es : List Event) (w : Wallet)
    → IsAddress w.state.address
    → IsAddress (handle_all es w).state.address
unfolding handle_all
handle_all-IsAddress [] w h = h
handle_all-IsAddress (e ∷ es) w h = handle_all-IsAddress es (handle e w) (handle-IsAddress e w h)

-- After a disconnection the page is as it was when it opened, and asks for no reconnection.
disconnect-open_wallet :
    (w : Wallet)
    → ((disconnect w).state ≡ (open_wallet w.state.installed w.preferred w.storage_works).state)
      × (read_preferred (disconnect w) ≡ false)
unfolding disconnect open_wallet read_preferred write_preferred
disconnect-open_wallet w = (refl, ground arith)
