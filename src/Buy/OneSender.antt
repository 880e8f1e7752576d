-- ===== src/Buy/OneSender.antt =====
-- `buy` (offchain/buy.ts) leaves a venue only before anything was sent there.
use pumpling.Base.{
  All, Bool, List, [], ap, false, if_elim, if◌then◌else◌, refl, some, sym, true, ◌++◌, ◌∙◌, ◌∷◌,
  ◌≡◌,
}
use pumpling.Buy.{
  BuyRun, VenueEnd, VenueError, VenueErrorKind, after_curve_error, after_dex_error, as_fallback,
  broke, buy, buy_from_pool, buy_graduated, buy_on_curve, fall_back, give_up, no_route, other_kind,
  post_send, tag_venue, went_through,
}
use pumpling.Scheduler.Batch.{BuyEnd, bought, threw}
use pumpling.Scheduler.Errors.{is_slippage_error}
use pumpling.Scheduler.Types.{BuyVenue, dex, pumpfun, pumpswap}

abbrev is_before_sending : VenueErrorKind → Bool
is_before_sending post_send = false
is_before_sending _ = true

-- The call failed, and had sent nothing.
abbrev pub sent_nothing : VenueEnd → Bool
sent_nothing (went_through signature) = false
sent_nothing (broke e) = is_before_sending e.kind

-- What a call at this venue comes to.
abbrev pub end_at : VenueEnd → BuyVenue → Bool → BuyEnd
end_at (went_through signature) venue fallback = bought signature venue fallback
end_at (broke e) venue fallback =
    threw (record { message = e.message; venue = some venue; sent = e.sent })

pub record EndsAtLast (at : BuyVenue → VenueEnd) (run : BuyRun) : Type 0 where
  pub earlier : List BuyVenue
  pub last : BuyVenue
  pub called : run.called ≡ earlier ++ (last ∷ [])
  pub quiet : All (λ v. sent_nothing (at v) ≡ true) earlier
  pub fallback : Bool
  pub ended : run.ends ≡ end_at (at last) last fallback

module _ (at : BuyVenue → VenueEnd) where
  quiet_error :
      (venue : BuyVenue) (e : VenueError) (k : VenueErrorKind)
      → at venue ≡ broke e
      → e.kind ≡ k
      → is_before_sending k ≡ true
      → sent_nothing (at venue) ≡ true
  quiet_error venue e k h kind quiet = ap sent_nothing h ∙ (ap is_before_sending kind ∙ quiet)

  EndsAtLast-pool :
      (p : VenueEnd)
      → at pumpswap ≡ p
      → sent_nothing (at dex) ≡ true
      → EndsAtLast at (buy_from_pool p)
  unfolding buy_from_pool tag_venue
  EndsAtLast-pool (went_through s) h quiet = record {
    earlier = dex ∷ [];
    last = pumpswap;
    called = refl;
    quiet = (quiet, tt);
    fallback = true;
    ended = ap (λ v. end_at v pumpswap true) (sym h);
  }
  EndsAtLast-pool (broke e) h quiet = record {
    earlier = dex ∷ [];
    last = pumpswap;
    called = refl;
    quiet = (quiet, tt);
    fallback = true;
    ended = ap (λ v. end_at v pumpswap true) (sym h);
  }

  -- The first venue, and the only one.
  EndsAtLast-only :
      (venue : BuyVenue) (v : VenueEnd)
      → at venue ≡ v
      → EndsAtLast at (record { called = venue ∷ []; ends = end_at v venue false })
  EndsAtLast-only venue v h = record {
    earlier = [];
    last = venue;
    called = refl;
    quiet = tt;
    fallback = false;
    ended = ap (λ w. end_at w venue false) (sym h);
  }

  EndsAtLast-after_dex_error :
      (k : VenueErrorKind) (e : VenueError) (p : VenueEnd)
      → at dex ≡ broke e
      → e.kind ≡ k
      → at pumpswap ≡ p
      → EndsAtLast at (after_dex_error k e p)
  unfolding after_dex_error tag_venue
  EndsAtLast-after_dex_error no_route e p h kind hp =
      EndsAtLast-pool p hp (quiet_error dex e no_route h kind refl)
  EndsAtLast-after_dex_error post_send e p h kind hp = EndsAtLast-only dex (broke e) h
  EndsAtLast-after_dex_error other_kind e p h kind hp = EndsAtLast-only dex (broke e) h

  EndsAtLast-graduated :
      (d p : VenueEnd) → at dex ≡ d → at pumpswap ≡ p → EndsAtLast at (buy_graduated d p)
  unfolding buy_graduated
  EndsAtLast-graduated (went_through s) p h hp = EndsAtLast-only dex (went_through s) h
  EndsAtLast-graduated (broke e) p h hp = EndsAtLast-after_dex_error e.kind e p h refl hp

  as_fallback-end_at :
      (v : VenueEnd) (venue : BuyVenue) (fallback : Bool)
      → as_fallback (end_at v venue fallback) ≡ end_at v venue true
  as_fallback-end_at (went_through s) venue fallback = refl
  as_fallback-end_at (broke e) venue fallback = refl

  EndsAtLast-fall_back :
      (run : BuyRun)
      → sent_nothing (at pumpfun) ≡ true
      → EndsAtLast at run
      → EndsAtLast at (fall_back run)
  EndsAtLast-fall_back run quiet h = record {
    earlier = pumpfun ∷ h.earlier;
    last = h.last;
    called = ap (λ vs. pumpfun ∷ vs) h.called;
    quiet = (quiet, h.quiet);
    fallback = true;
    ended = ap as_fallback h.ended ∙ as_fallback-end_at (at h.last) h.last h.fallback;
  }

  EndsAtLast-turned :
      (e : VenueError) (k : VenueErrorKind)
      → at pumpfun ≡ broke e
      → e.kind ≡ k
      → is_before_sending k ≡ true
      → EndsAtLast at (
          if is_slippage_error e.message (some pumpfun)
          then give_up e
          else fall_back (buy_graduated (at dex) (at pumpswap)))
  unfolding give_up tag_venue
  EndsAtLast-turned e k h kind quiet =
      if_elim (EndsAtLast at) (is_slippage_error e.message (some pumpfun)) _ _
        (λ _. EndsAtLast-only pumpfun (broke e) h)
        (λ _.
          EndsAtLast-fall_back _ (quiet_error pumpfun e k h kind quiet)
            (EndsAtLast-graduated (at dex) (at pumpswap) refl refl))

  EndsAtLast-curve :
      (c : VenueEnd) → at pumpfun ≡ c → EndsAtLast at (buy_on_curve c (at dex) (at pumpswap))
  unfolding buy_on_curve after_curve_error give_up tag_venue
  EndsAtLast-curve (went_through s) h = EndsAtLast-only pumpfun (went_through s) h
  EndsAtLast-curve (broke e) h = kind_case e.kind refl
    where
      kind_case :
          (k : VenueErrorKind)
          → e.kind ≡ k
          → EndsAtLast at (after_curve_error k e (at dex) (at pumpswap))
      kind_case post_send kind = EndsAtLast-only pumpfun (broke e) h
      kind_case no_route kind = EndsAtLast-turned e no_route h kind refl
      kind_case other_kind kind = EndsAtLast-turned e other_kind h kind refl

-- However the calls at the venues end, a purchase ends as its last one does, under the name of that
-- venue, and every venue that was left before had failed without sending a transaction.
pub buy-EndsAtLast : (active : Bool) (at : BuyVenue → VenueEnd) → EndsAtLast at (buy active at)
unfolding buy
buy-EndsAtLast true at = EndsAtLast-curve at (at pumpfun) refl
buy-EndsAtLast false at = EndsAtLast-graduated at (at dex) (at pumpswap) refl refl
