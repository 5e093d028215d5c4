-- ===== src/Api/Manager/Topics.antt =====
-- Which sessions there are, and which of them hear of a topic.
use ironfish.Base.{
  ◌≤◌, true, false, some, [], text_eq, nat_eq, get, get-insert, length, length-insert, leb,
  if◌then◌else◌, Bool-cases, ◌≡◌, ◌⊎◌, inl, inr, ◌==◌, arith,
}
use ironfish.Core.Token.{Uuid}
use ironfish.Api.Manager.{SessionManager, register, session_count}

-- A full manager refuses a session and is unchanged; any other one takes it, with no topics, and
-- stays within its limit.
register_lem :
    (id : Uuid) (m : SessionManager)
    → let (m', accepted) = register id m in
      ((m.max_connections ≤ session_count m) × (accepted ≡ false) × (m' ≡ m))
      ⊎ ((accepted ≡ true)
          × (session_count m' ≤ m.max_connections)
          × ((k : Uuid) → get k m'.sessions ≡ (if id == k then some [] else get k m.sessions)))
unfolding register session_count
register_lem id m = elim (Bool-cases (leb m.max_connections (length m.sessions))) [
  | inl full ↦ inl (ground (arith, full))
  | inr free ↦ inr (
    ground (arith, free),
    ground (arith, free, length-insert id [] m.sessions),
    λ k. ground (arith, free, get-insert id k [] m.sessions),
  )
]
