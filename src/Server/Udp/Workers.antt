-- ===== src/Server/Udp/Workers.antt =====
-- How many worker threads there are.
use simple_dnsd.Base.{
  ℕ, ◌+◌, ◌*◌, ◌^◌, ◌≤◌, ◌<◌, Bool, true, false, List, [], ◌∷◌, length, length-append, keep_if,
  arith,
}
use simple_dnsd.Server.Udp.{
  Worker, answers, serves, add_answer, add_session, add_worker, add_workers,
}

abbrev pub is_session : Worker → Bool
is_session (answers packet src) = false
is_session (serves c) = true

length-add_worker :
    (threads bound : ℕ) (workers : List Worker) (w : Worker)
    → threads * 4 < 2 ^ 32
    → threads * 4 ≤ bound
    → length workers ≤ bound
    → length (add_worker threads workers w) ≤ bound + length (keep_if is_session (w ∷ []))
unfolding add_worker add_answer add_session
length-add_worker threads bound workers (answers packet src) t b h =
    ground (arith, length-append workers (answers packet src ∷ []))
length-add_worker threads bound workers (serves c) t b h =
    ground (arith, length-append workers (serves c ∷ []))

grown :
    (threads bound : ℕ) (workers ws : List Worker)
    → threads * 4 < 2 ^ 32
    → threads * 4 ≤ bound
    → length workers ≤ bound
    → length (add_workers threads workers ws) ≤ bound + length (keep_if is_session ws)
unfolding add_workers
grown threads bound workers [] t b h = omega (arith, h)
grown threads bound workers (answers packet src ∷ ws) t b h =
    grown threads bound (add_worker threads workers (answers packet src)) ws t b
      (omega (arith, length-add_worker threads bound workers (answers packet src) t b h))
grown threads bound workers (serves c ∷ ws) t b h = omega (
  arith,
  grown threads (bound + 1) (add_worker threads workers (serves c)) ws t (omega arith)
      (omega (arith, length-add_worker threads bound workers (serves c) t b h)),
)

-- However packets and connections come, there are never more worker threads at hand than four for each
-- one configured and one for each connection that came.
pub length-add_workers :
    (threads : ℕ) (ws : List Worker)
    → threads * 4 < 2 ^ 32
    → length (add_workers threads [] ws) ≤ threads * 4 + length (keep_if is_session ws)
length-add_workers threads ws t = grown threads (threads * 4) [] ws t (omega arith) (omega arith)
