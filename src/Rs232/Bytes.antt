-- ===== src/Rs232/Bytes.antt =====
-- The bytes on their way through the driver of
-- dev1-rs232-driver/rs232_tut-0.2/driver/rs232_tp.c.
use operating_systems_assign.Prelude.{
  ℕ, ◌<◌, ◌≡◌, refl, sym, ap, ◌∙◌, true, false, some, List, [], ◌∷◌, ◌++◌,
}
use mathlib.Core.List.{append_assoc}
use operating_systems_assign.CBuffer.{CBuffer, is_empty, is_full, enqueue, dequeue, IsValid}
use operating_systems_assign.CBuffer.Window.{contents}
use operating_systems_assign.CBuffer.Contents.{
  contents-put, contents-take_off, dequeue-IsValid, dequeue-size,
}
use operating_systems_assign.Rs232.{Driver, send_first}

-- What has been sent, and what waits to be sent behind it.
abbrev pub stream : Driver → List ℕ
stream d = d.thr ++ contents d.cbuf_out

-- Both buffers are allocated, and the one that sends has room for a byte.
abbrev pub IsOpen : Driver → Type 0
IsOpen d = IsValid d.cbuf_in × IsValid d.cbuf_out × (1 < d.cbuf_out.size)

-- From d to d' the bytes `received` came in, and none was lost on the way out.
abbrev pub Progress : Driver → List ℕ → Driver → Type 0
Progress d received d' =
    IsOpen d'
    × (stream d' ≡ stream d)
    × (contents d'.cbuf_in ≡ contents d.cbuf_in ++ received)
    × (d'.cbuf_in.size ≡ d.cbuf_in.size)

pub enqueue_room :
    (cb : CBuffer) (b : ℕ)
    → IsValid cb
    → is_full cb ≡ false
    → ((enqueue cb b).0 ≡ 0) × (contents (enqueue cb b).1 ≡ contents cb ++ (b ∷ []))
unfolding enqueue
enqueue_room cb b v e = rw e (refl, contents-put cb b v e)

pub dequeue_first :
    (cb : CBuffer) (b : ℕ)
    → IsValid cb
    → is_empty cb ≡ false
    → ((dequeue cb b).0 ≡ 0) × (contents cb ≡ (dequeue cb b).1.0 ∷ contents (dequeue cb b).1.1)
unfolding dequeue
dequeue_first cb b v e = rw e (refl, contents-take_off cb v e)

pub dequeue_none : (cb : CBuffer) (b : ℕ) → is_empty cb ≡ true → (dequeue cb b).0 ≡ 1
unfolding dequeue
dequeue_none cb b e = rw e refl

pub send_first_lem :
    (d : Driver)
    → IsOpen d
    → is_empty d.cbuf_out ≡ false
    → (d' : Driver) × (send_first d ≡ some d')
      × IsOpen d'
      × (stream d' ≡ stream d)
      × (d'.cbuf_in ≡ d.cbuf_in)
unfolding send_first
send_first_lem d (vi, vo, h) e =
    let r = dequeue d.cbuf_out 0 in
    let first = dequeue_first d.cbuf_out 0 vo e in
    let bigger : 1 < r.1.1.size = rw (dequeue-size d.cbuf_out 0) h in
    (
      record d { cbuf_out = r.1.1; thr = d.thr ++ (r.1.0 ∷ []) },
      rw first.0 refl,
      (vi, dequeue-IsValid d.cbuf_out 0 vo, bigger),
      append_assoc d.thr (r.1.0 ∷ []) (contents r.1.1) ∙ ap (λ q. d.thr ++ q) (sym first.1),
      refl,
    )
