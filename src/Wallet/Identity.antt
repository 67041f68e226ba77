-- ===== src/Wallet/Identity.antt =====
-- components/WalletConnect.tsx: the name of the connected account, the identity that the page seals
-- with, and what the bar shows. What a lookup answers is an argument.
pub mod Resolved
use sealed_sky_verification.Common.{
  Bool, true, false, Option, none, some, List, [], ◌∷◌, map, if◌then◌else◌,
}
use sealed_sky_verification.Common.Text.{Text, codes, text_eq}
use sealed_sky_verification.Errors.{Error}
use sealed_sky_verification.Share.{truthy}
use sealed_sky_verification.Wallet.{WalletState, short_addr}

-- A lookup that was started, by one run of the effect.
pub record Search : Type 0 where
  pub address : Text
  pub cancelled : Bool

-- What `onIdentityChange` was given last.
pub record Identity : Type 0 where
  pub address : Option Text
  pub ens : Option Text

pub record Bar : Type 0 where
  pub address : Option Text
  pub ens : Option Text
  pub resolving : Bool
  pub identity : Identity
  pub searches : List Search

abbrev pub nobody : Identity
nobody = record { address = none; ens = none }

abbrev pub cancel_search : Search → Search
cancel_search s = record s { cancelled = true }

-- The effect on the address, after its cleanup.
unfoldable pub start_search : Option Text → Bar → Bar
start_search none b = record b { ens = none; identity = nobody }
start_search (some a) b = record b {
  resolving = true;
  searches = record { address = a; cancelled = false } ∷ b.searches;
}

abbrev pub is_same : Option Text → Option Text → Bool
is_same none none = true
is_same (some a) (some b) = text_eq a b
is_same _ _ = false

-- The wallet's address, as it is after an event of the wallet; an empty one counts as none.
unfoldable pub set_address : Option Text → Bar → Bar
unfolding start_search
set_address address b =
    if is_same address b.address
    then b
    else start_search (truthy address)
        (record b { address = address; searches = map cancel_search b.searches })

-- The bar as it is first shown.
unfoldable pub open_bar : Option Text → Bar
unfolding start_search
open_bar address =
    start_search (truthy address) (record {
      address = address;
      ens = none;
      resolving = false;
      identity = nobody;
      searches = [];
    })

-- A lookup has ended; `rest` are the others.
abbrev pub with_name : Text → Option Text → Bar → Bar
with_name address name b = record b {
  ens = name;
  resolving = false;
  identity = record { address = some address; ens = name };
}

unfoldable pub search_ended : Search → Option Text → List Search → Bar → Bar
search_ended s name rest b =
    let left = record b { searches = rest } in
    if s.cancelled then left else with_name s.address name left

pub data BarView : Type 0 where
  no_provider : BarView
  connect_button : (connecting : Bool) → Option Error → BarView
  sealed_by : (name : Text) → (short : Option Text) → BarView

abbrev shown_name : Bool → Option Text → Text → Text
shown_name true ens address = codes "…"
shown_name false none address = short_addr (some address)
shown_name false (some name) address = name

abbrev short_beside : Option Text → Text → Option Text
short_beside none address = none
short_beside (some name) address = some (short_addr (some address))

abbrev bar_of : WalletState → Bar → Option Text → BarView
bar_of w b none = connect_button w.connecting w.error
bar_of w b (some address) =
    sealed_by (shown_name b.resolving b.ens address) (short_beside (truthy b.ens) address)

unfoldable pub bar_view : WalletState → Bar → BarView
unfolding short_addr
bar_view w b = if w.installed then bar_of w b (truthy w.address) else no_provider
