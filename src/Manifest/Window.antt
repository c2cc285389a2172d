-- ===== src/Manifest/Window.antt =====
-- The conflict window that a document gives: the product by a million is an int64's.
use idemio.Prelude.{ℕ, ◌*◌, ◌≤◌, ◌≡◌, pos, arith}
use idemio.Manifest.{Document, definition}

module _ (d : Document) where
  -- A window of at most 9223372036854 ms is kept exactly, in nanoseconds.
  pub definition-window :
      (ms : ℕ)
      → d.conflict_window_ms ≡ pos ms
      → ms ≤ 9223372036854
      → (definition d).conflict_window ≡ pos (ms * 1000000)
  unfolding definition
  definition-window ms e h = ground arith

  -- A window of a multiple of 2 ^ 58 ms becomes a window of zero.
  pub definition-window_wraps :
      (k : ℕ)
      → d.conflict_window_ms ≡ pos (k * 288230376151711744)
      → (definition d).conflict_window ≡ pos 0
  unfolding definition
  definition-window_wraps k e = ground arith
