-- ===== src/Cockpit/World.antt =====
-- What the cockpit takes from outside at each call: the readings of its clock and the UUIDs of its
-- id factory (`CockpitService.__init__`, `Clock`, `IdFactory`).
use supersonic.Prelude.{ℕ, ◌+◌, Exec, ok}
use supersonic.Contract.{Time, Uuid}

pub record World : Type 0 where
  pub clock : ℕ → Time
  pub readings : ℕ
  pub ids : ℕ → Uuid
  pub issued : ℕ

module _ {E : Type 0} where
  -- `self._clock()`
  unfoldable pub read_clock : Exec E World Time
  read_clock w = (ok (w.clock w.readings), record w { readings = w.readings + 1 })

  -- `self._id_factory()`
  unfoldable pub new_id : Exec E World Uuid
  new_id w = (ok (w.ids w.issued), record w { issued = w.issued + 1 })
