-- ===== src/Buy.antt =====
-- offchain/buy.ts: where a purchase is made. How a call at each venue ends is an argument, and the
-- venues that are called are kept, in their order.
pub mod OneSender
use pumpling.Base.{Bool, List, Option, [], false, if◌then◌else◌, some, true, ℕ, ◌∷◌}
use pumpling.Base.Text.{Text}
use pumpling.Orchestrator.Types.{Signature}
use pumpling.Scheduler.Batch.{BuyEnd, BuyError, bought, threw}
use pumpling.Scheduler.Errors.{is_slippage_error}
use pumpling.Scheduler.Types.{BuyVenue, dex, pumpfun, pumpswap}

-- The class of what a venue throws: `PostSendError`, `NoRouteError` or another.
pub data VenueErrorKind : Type 0 where
  post_send no_route other_kind : VenueErrorKind

pub record VenueError : Type 0 where
  pub kind : VenueErrorKind
  pub message : Text
  pub sent : Option (Signature × Option ℕ)

pub data VenueEnd : Type 0 where
  went_through : Signature → VenueEnd
  broke : VenueError → VenueEnd

-- The venues that were called, and how the whole call ended.
pub record BuyRun : Type 0 where
  pub called : List BuyVenue
  pub ends : BuyEnd

-- `tagVenue`
unfoldable pub tag_venue : VenueError → BuyVenue → BuyError
tag_venue e venue = record { message = e.message; venue = some venue; sent = e.sent }

-- The direct pool, where Jupiter has no route.
unfoldable pub buy_from_pool : VenueEnd → BuyRun
unfolding tag_venue
buy_from_pool (went_through signature) = record {
  called = dex ∷ pumpswap ∷ [];
  ends = bought signature pumpswap true;
}
buy_from_pool (broke e) = record {
  called = dex ∷ pumpswap ∷ [];
  ends = threw (tag_venue e pumpswap);
}

unfoldable pub after_dex_error : VenueErrorKind → VenueError → VenueEnd → BuyRun
unfolding tag_venue buy_from_pool
after_dex_error no_route e pool = buy_from_pool pool
after_dex_error _ e pool = record { called = dex ∷ []; ends = threw (tag_venue e dex) }

-- `buyGraduated`
unfoldable pub buy_graduated : VenueEnd → VenueEnd → BuyRun
unfolding after_dex_error
buy_graduated (went_through signature) pool = record {
  called = dex ∷ [];
  ends = bought signature dex false;
}
buy_graduated (broke e) pool = after_dex_error e.kind e pool

-- `{ ...result, fallback: true }`
abbrev pub as_fallback : BuyEnd → BuyEnd
as_fallback (bought signature venue fallback) = bought signature venue true
as_fallback (threw e) = threw e

abbrev pub fall_back : BuyRun → BuyRun
fall_back run = record { called = pumpfun ∷ run.called; ends = as_fallback run.ends }

unfoldable pub give_up : VenueError → BuyRun
unfolding tag_venue
give_up e = record { called = pumpfun ∷ []; ends = threw (tag_venue e pumpfun) }

-- An error on the curve: only one from before the sending, and not for slippage, changes the venue.
unfoldable pub after_curve_error : VenueErrorKind → VenueError → VenueEnd → VenueEnd → BuyRun
unfolding give_up is_slippage_error buy_graduated
after_curve_error post_send e jupiter pool = give_up e
after_curve_error _ e jupiter pool =
    if is_slippage_error e.message (some pumpfun)
    then give_up e
    else fall_back (buy_graduated jupiter pool)

unfoldable pub buy_on_curve : VenueEnd → VenueEnd → VenueEnd → BuyRun
unfolding after_curve_error
buy_on_curve (went_through signature) jupiter pool = record {
  called = pumpfun ∷ [];
  ends = bought signature pumpfun false;
}
buy_on_curve (broke e) jupiter pool = after_curve_error e.kind e jupiter pool

-- `buy`, from whether the bonding curve is active.
unfoldable pub buy : Bool → (BuyVenue → VenueEnd) → BuyRun
unfolding buy_on_curve buy_graduated
buy true at = buy_on_curve (at pumpfun) (at dex) (at pumpswap)
buy false at = buy_graduated (at dex) (at pumpswap)
