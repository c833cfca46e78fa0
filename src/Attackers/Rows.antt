-- ===== src/Attackers/Rows.antt =====
-- What the update of one row keeps and what it brings up to date.
use tuxwall.Base.{◌≡◌, refl, String, arith, ◌≢◌, sym, ◌∙◌}
use tuxwall.Attackers.{Attacker, Scene, Row, ban_button, build_row, update_row}

-- Address, ISP text and listeners of a row are what they were.
pub record IsKept (r r' : Row) : Type 0 where
  pub ip : r'.ip ≡ r.ip
  pub isp : r'.isp ≡ r.isp
  pub listens : r'.listens ≡ r.listens

pub update_row-IsKept :
    (sc : Scene) (sev : String) (e : Attacker) (r : Row) → IsKept r (update_row sc sev e r)
unfolding update_row
update_row-IsKept sc sev e r = record {
  ip = ground arith;
  isp = ground arith;
  listens = ground arith;
}

-- The count that the row shows is the one that its data attribute names.
abbrev pub IsConsistent : Row → Type 0
IsConsistent r = r.hits ≡ r.count

pub record Shows (sc : Scene) (sev : String) (e : Attacker) (r : Row) : Type 0 where
  pub count : r.count ≡ e.count
  pub hits : r.hits ≡ e.count
  pub is_banned : r.is_banned ≡ sc.is_banned e.ip
  pub button : r.button ≡ ban_button sc.cs_up (sc.is_banned e.ip)
  pub report : r.report ≡ sev

pub build_row-Shows :
    (sc : Scene) (sev : String) (e : Attacker) → Shows sc sev e (build_row sc sev e)
unfolding build_row
build_row-Shows sc sev e = record {
  count = refl;
  hits = refl;
  is_banned = refl;
  button = refl;
  report = refl;
}

pub update_row-Shows :
    (sc : Scene) (sev : String) (e : Attacker) (r : Row)
    → IsConsistent r
    → Shows sc sev e (update_row sc sev e r)
unfolding update_row
update_row-Shows sc sev e r h = record {
  count = ground arith;
  hits = ground arith;
  is_banned = ground arith;
  button = ground arith;
  report = ground arith;
}

-- A row whose count and ban have not changed keeps its badge and its bar, although both are shares
-- of the largest count, which may have changed: where the badge is not the one that a row written
-- anew would have, it stays so. The time that the hover card shows stays as well.
pub update_row-stale :
    (sc : Scene) (sev : String) (e : Attacker) (r : Row)
    → r.count ≡ e.count
    → r.is_banned ≡ sc.is_banned e.ip
    → r.badge ≢ (build_row sc sev e).badge
    → ((update_row sc sev e r).badge ≢ (build_row sc sev e).badge)
      × ((update_row sc sev e r).bar ≡ r.bar)
      × ((update_row sc sev e r).last ≡ r.last)
unfolding update_row
update_row-stale sc sev e r h k ne =
    let kept : (update_row sc sev e r).badge ≡ r.badge = ground arith in
    ((λ q. ne (sym kept ∙ q)), ground arith, ground arith)
