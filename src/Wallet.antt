-- ===== src/Wallet.antt =====
-- sealed-sky-web/src/lib/wallet.ts: the injected wallet, its replies and events, and the flag in the
-- storage that asks for a silent reconnection.
pub mod Addresses
pub mod Identity
use sealed_sky_verification.Common.{
  ℕ, ◌+◌, ◌-◌, Bool, true, false, not, ◌&&◌, ◌||◌, Option, none, some, List, [], ◌∷◌, ◌++◌, ◌==◌,
  leb, ltb, if◌then◌else◌, all, length, take, drop,
}
use sealed_sky_verification.Common.Text.{Text, codes}
use sealed_sky_verification.Js.{Integer, digit_value, parse_int}
use sealed_sky_verification.Errors.{Error, Result, ok, err, thrown}
use sealed_sky_verification.Json.{Json, Items, nil, cons, num, str, arr}

pub record WalletState : Type 0 where
  pub address : Option Text
  pub chain_id : Option ℕ
  pub connecting : Bool
  pub error : Option Error
  pub installed : Bool

-- The state of the hook, the stored flag, and whether the storage works: where it does not, a read
-- gives false and a write is ignored.
pub record Wallet : Type 0 where
  pub state : WalletState
  pub preferred : Bool
  pub storage_works : Bool

unfoldable pub read_preferred : Wallet → Bool
read_preferred w = w.storage_works && w.preferred

unfoldable pub write_preferred : Bool → Wallet → Wallet
write_preferred on w = record w { preferred = if w.storage_works then on else w.preferred }

-- `/^0x[0-9a-fA-F]+$/.test(s)`
unfoldable pub is_hex_text : Text → Bool
is_hex_text (z ∷ x ∷ d ∷ ds) = z == b'0' && x == b'x' && all (λ c. ltb (digit_value c) 16) (d ∷ ds)
is_hex_text _ = false

unfoldable pub as_hex : Json → Option Text
unfolding is_hex_text
as_hex (str s) = if is_hex_text s then some s else none
as_hex _ = none

abbrev magnitude : Option Integer → Option ℕ
magnitude none = none
magnitude (some i) = some i.magnitude

unfoldable pub as_chain_id : Json → Option ℕ
unfolding is_hex_text
as_chain_id (str s) = if is_hex_text s then magnitude (parse_int 16 s) else none
as_chain_id (num n) = some n
as_chain_id _ = none

-- The first account; a falsy one is null, as it is no hexadecimal text either.
unfoldable pub first_account : Json → Option Text
unfolding as_hex
first_account (arr (cons v vs)) = as_hex v
first_account _ = none

abbrev pub is_there : Option Text → Bool
is_there none = false
is_there (some a) = true

-- The accounts and the chain that the wallet answers with, or the error it rejects with.
abbrev pub Answer : Type 0
Answer = Result (Json × Json)

abbrev initial : Bool → WalletState
initial installed = record {
  address = none;
  chain_id = none;
  connecting = false;
  error = none;
  installed = installed;
}

unfoldable pub open_wallet : (installed preferred storage_works : Bool) → Wallet
open_wallet installed preferred storage_works = record {
  state = initial installed;
  preferred = preferred;
  storage_works = storage_works;
}

-- The reply to the silent reconnection, which is made if the flag was set when the page opened.
unfoldable pub reconnect : Answer → Wallet → Wallet
unfolding first_account as_chain_id
reconnect (err e) w = w
reconnect (ok (accounts, chain)) w = record w {
  state = record w.state { address = first_account accounts; chain_id = as_chain_id chain };
}

unfoldable pub on_accounts : Json → Wallet → Wallet
unfolding first_account write_preferred
on_accounts accounts w =
    let addr = first_account accounts in
    let w' = record w { state = record w.state { address = addr } } in
    if is_there addr then w' else write_preferred false w'

unfoldable pub on_chain : Json → Wallet → Wallet
unfolding as_chain_id
on_chain chain w = record w { state = record w.state { chain_id = as_chain_id chain } }

abbrev pub no_wallet : Error
no_wallet = thrown (codes "No injected wallet detected. Install MetaMask, Rabby, or similar.")

-- `connect` up to its request, and the reply to it.
unfoldable pub begin_connect : Wallet → Wallet
begin_connect w =
    if w.state.installed
    then record w { state = record w.state { connecting = true; error = none } }
    else record w { state = record w.state { error = some no_wallet } }

unfoldable pub end_connect : Answer → Wallet → Wallet
unfolding first_account as_chain_id write_preferred
end_connect (err e) w = record w { state = record w.state { connecting = false; error = some e } }
end_connect (ok (accounts, chain)) w =
    let addr = first_account accounts in
    record (write_preferred (is_there addr) w) {
      state = record {
        address = addr;
        chain_id = as_chain_id chain;
        connecting = false;
        error = none;
        installed = true;
      };
    }

unfoldable pub disconnect : Wallet → Wallet
unfolding write_preferred
disconnect w = record (write_preferred false w) { state = initial w.state.installed }

-- `a.slice(0, 6)` and `a.slice(-4)` around an ellipsis.
unfoldable pub short_addr : Option Text → Text
short_addr none = []
short_addr (some []) = []
short_addr (some (c ∷ a)) = take 6 (c ∷ a) ++ (0x2026 ∷ drop (length (c ∷ a) - 4) (c ∷ a))

pub data Event : Type 0 where
  reconnected connected : Answer → Event
  accounts_changed chain_changed : Json → Event
  connect_pressed disconnect_pressed : Event

-- The events of the provider reach the page only if there is one.
unfoldable pub handle : Event → Wallet → Wallet
unfolding reconnect on_accounts on_chain begin_connect end_connect disconnect
handle (reconnected answer) w = reconnect answer w
handle (connected answer) w = end_connect answer w
handle (accounts_changed v) w = on_accounts v w
handle (chain_changed v) w = on_chain v w
handle connect_pressed w = begin_connect w
handle disconnect_pressed w = disconnect w

unfoldable pub handle_all : List Event → Wallet → Wallet
handle_all [] w = w
handle_all (e ∷ es) w = handle_all es (handle e w)
