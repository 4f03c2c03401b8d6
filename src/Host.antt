-- ===== src/Host.antt =====
-- What the broker works with outside its own objects: the connections (coilmq/server/__init__.py),
-- `uuid.uuid4` and `random`.
use coilmq.Prelude.{
  ℕ, ◌+◌, String, Bool, false, List, [], ◌∷◌, ◌++◌, Exec, ok, err, nat_equality, if◌then◌else◌,
}
use coilmq.Dict.{Dict, get_or}
use coilmq.Frame.{Frame, Error}

-- A connection is known by a number. `sent` lists what the connections accepted, oldest first.
pub record Host : Type 0 where
  pub reliable : Dict ℕ Bool
  pub sent : List (ℕ × Frame)
  pub attempts : ℕ
  pub uuids : ℕ
  pub draws : ℕ

-- The outside world: whether the n-th call of `send_frame` returns or raises, the n-th uuid, the
-- n-th random number, and `str` of an exception.
pub record Environment : Type 0 where
  pub delivers : ℕ → ℕ → Frame → Bool
  pub uuid : ℕ → String
  pub draw : ℕ → ℕ
  pub render : Error → String

-- connection.reliable_subscriber, False until it is assigned
abbrev pub is_reliable : Host → ℕ → Bool
is_reliable h c = get_or h.reliable c false

module _ (env : Environment) where
  -- connection.send_frame(frame)
  unfoldable pub send_frame : ℕ → Frame → Exec Error Host (Unit {0})
  send_frame c f h =
      if env.delivers h.attempts c f
      then (ok tt, record h { sent = h.sent ++ ((c, f) ∷ []); attempts = h.attempts + 1 })
      else (err Error.connection_error, record h { attempts = h.attempts + 1 })

  -- str(uuid.uuid4())
  abbrev pub uuid4 : Exec Error Host String
  uuid4 h = (ok (env.uuid h.uuids), record h { uuids = h.uuids + 1 })

  -- The random number that one call of a scheduler uses.
  abbrev pub random_draw : Exec Error Host ℕ
  random_draw h = (ok (env.draw h.draws), record h { draws = h.draws + 1 })
