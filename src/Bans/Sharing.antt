-- ===== src/Bans/Sharing.antt =====
-- The button that registers the install for community sharing, `updateShareStatus` and its click.
use tuxwall.Base.{
  ℕ, ◌-◌, ◌≡◌, refl, String, Bool, true, false, ◌&&◌, List, [], ◌∷◌, not, leb, ◌==◌, if◌then◌else◌,
  arith, every, if-elim,
}
use tuxwall.Bans.{Reply, ok, failed}

pub data Badge : Type 0 where
  unknown active inactive pending : Badge

pub data Notice : Type 0 where
  unavailable : Notice
  trusted : Notice
  -- full trust in so many seconds
  trusted_in : ℕ → Notice
  local_only : Notice
  registering : Notice
  registered_now : Notice
  failed_with : String → Notice

pub data Label : Type 0 where
  enable retry registered : Label

-- The badge, the text and the button.
pub record Share : Type 0 where
  pub badge : Badge
  pub notice : Notice
  pub label : Label
  pub disabled : Bool

-- An answer of the status request with `ok`; `registered` where the key is and is not revoked.
pub record Status : Type 0 where
  pub warning : Bool
  pub registered : Bool
  pub trusted_after : ℕ

-- `updateShareStatus` at `now`
pub update_share_status : Reply Status → ℕ → Share → Share
update_share_status (failed message) now s = record s { notice = unavailable; badge = unknown }
update_share_status (ok d) now s =
    if d.warning
    then record s { notice = unavailable; label = retry; badge = unknown }
    else if d.registered
    then record {
      badge = active;
      notice =
          (if not (d.trusted_after == 0) && leb d.trusted_after now
            then trusted
            else trusted_in (d.trusted_after - now));
      label = Label.registered;
      disabled = true;
    }
    else record { badge = inactive; notice = local_only; label = enable; disabled = false }

-- The click, up to its request; a button that is disabled takes none.
pub press : Share → Share
press s =
    if s.disabled then s else record s { disabled = true; badge = pending; notice = registering }

-- What comes of the request. After a success the status is asked for.
pub registered_answer : Reply Unit → Reply Status → ℕ → Share → Share
unfolding update_share_status
registered_answer (ok u) d now s = update_share_status d now (record s { notice = registered_now })
registered_answer (failed message) d now s = record s {
  notice = failed_with message;
  badge = inactive;
  disabled = false;
}

-- A status that cannot be told.
abbrev pub is_unclear : Reply Status → Bool
is_unclear (failed message) = true
is_unclear (ok d) = d.warning

abbrev pub update_all : List (Reply Status) → ℕ → Share → Share
update_all [] now s = s
update_all (d ∷ ds) now s = update_all ds now (update_share_status d now s)

update-disabled :
    (d : Reply Status) (now : ℕ) (s : Share)
    → is_unclear d ≡ true
    → s.disabled ≡ true
    → (update_share_status d now s).disabled ≡ true
unfolding update_share_status
update-disabled (failed m) now s e h = h
update-disabled (ok d) now s e h = ground (arith, e, h)

update_all-disabled :
    (ds : List (Reply Status)) (now : ℕ) (s : Share)
    → every is_unclear ds ≡ true
    → s.disabled ≡ true
    → (update_all ds now s).disabled ≡ true
update_all-disabled [] now s e h = h
update_all-disabled (d ∷ ds) now s e h =
    update_all-disabled ds now (update_share_status d now s) (ground (arith, e))
      (update-disabled d now s (ground (arith, e)) h)

press-disabled : (s : Share) → (press s).disabled ≡ true
unfolding press
press-disabled s = if-elim (λ t. t.disabled ≡ true) s.disabled s _ (λ e. e) (λ e. refl)

press-ignored : (s : Share) → s.disabled ≡ true → press s ≡ s
unfolding press
press-ignored s e = if-elim (λ t. t ≡ s) s.disabled s _ (λ f. refl) (λ f. ground (arith, e, f))

-- The click registered the key, but each time the status was asked for since it could not be told: the
-- button, which then offers to try again, takes no further click.
pub registered_answer-ignored :
    (d : Reply Status) (ds : List (Reply Status)) (now : ℕ) (s : Share)
    → every is_unclear (d ∷ ds) ≡ true
    → press (update_all ds now (registered_answer (ok tt) d now (press s)))
      ≡ update_all ds now (registered_answer (ok tt) d now (press s))
unfolding registered_answer
registered_answer-ignored d ds now s e = press-ignored _ (
    update_all-disabled (d ∷ ds) now (record (press s) { notice = registered_now }) e
      (press-disabled s))
