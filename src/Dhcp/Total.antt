-- ===== src/Dhcp/Total.antt =====
-- `parse_request` ends without a panic.
use microfips.Base.{
  ℕ, zero, suc, ◌+◌, ◌-◌, ◌≤◌, ◌<◌, List, ltb, ltb→lt, ltb→le, leb, ◌==◌, ◌!=◌, ◌||◌, not, length,
  get_or, take, drop, arith,
}
use microfips.Bytes.{eq_bytes}
use microfips.Exec.{err, Absent, absent, IsNotPanic}
use microfips.Exec.Laws.{index_lem, slice_lem}
use microfips.Exec.Post.{Gives, Gives-bind, Gives-if, Gives-IsNotPanic}
use microfips.Dhcp.Request.{
  Request, get, get_range, set_option, parse_options, read_header, parse_body, parse_request,
  magic_cookie, op_request, opt_end,
}

abbrev Anything {ℓ} : {A : Type ℓ} → A → Type 0
Anything a = Unit

get-Gives : (packet : List ℕ) (i : ℕ) → Gives Anything (get packet i)
unfolding get
get-Gives packet i = Gives-if Anything (ltb i (length packet)) _ _ (λ h. tt) (λ h. tt)

get_range-Gives : (packet : List ℕ) (a b : ℕ) → Gives Anything (get_range packet a b)
unfolding get_range
get_range-Gives packet a b = Gives-if Anything (leb b (length packet)) _ _ (λ h. tt) (λ h. tt)

parse_options-Gives :
    (fuel : ℕ) (packet : List ℕ) (off : ℕ) (req : Request)
    → length packet < fuel + off
    → 0 < fuel
    → Gives Anything (parse_options fuel packet off req)
unfolding parse_options
parse_options-Gives zero packet off req enough some_fuel = absurd (omega arith)
parse_options-Gives (suc fuel) packet off req enough some_fuel =
    Gives-if Anything (ltb off (length packet)) _ _
      (λ before.
        let inside = ltb→lt off (length packet) before in
        rw (index_lem {E = Absent} packet off inside) (
          Gives-if Anything (get_or packet off 0 == opt_end) _ _ (λ h. tt)
            (λ h.
              Gives-if Anything (get_or packet off 0 == 0) _ _
                (λ k. parse_options-Gives fuel packet (off + 1) req (omega arith) (omega arith))
                (λ k.
                  Gives-bind Anything Anything (get packet (off + 1)) _ (get-Gives packet (off + 1))
                    (λ len u.
                      Gives-bind Anything Anything (get_range packet (off + 2) (off + 2 + len)) _
                        (get_range-Gives packet (off + 2) (off + 2 + len))
                        (λ value v.
                          parse_options-Gives fuel packet (off + (2 + len))
                            (set_option (get_or packet off 0) len value req) (omega arith)
                            (omega arith)))))))
      (λ after. tt)

read_header_lem : (packet : List ℕ) → 240 ≤ length packet → Gives Anything (read_header packet)
unfolding read_header
read_header_lem packet long =
    rw
      (
        slice_lem {E = Absent} packet 4 8 (omega arith) (omega arith),
        slice_lem {E = Absent} packet 10 12 (omega arith) (omega arith),
        slice_lem {E = Absent} packet 28 34 (omega arith) (omega arith),
        slice_lem {E = Absent} packet 12 16 (omega arith) (omega arith),
      )
      tt

parse_body-Gives : (packet : List ℕ) → 240 ≤ length packet → Gives Anything (parse_body packet)
unfolding parse_body
parse_body-Gives packet long =
    Gives-bind Anything Anything (read_header packet) _ (read_header_lem packet long) (λ fixed u.
      Gives-bind Anything Anything (parse_options (suc (length packet)) packet 240 fixed) _
        (parse_options-Gives (suc (length packet)) packet 240 fixed (omega arith) (omega arith))
        (λ req v. Gives-if Anything (req.msg_type == 0) _ _ (λ h. tt) (λ h. tt)))

-- Any packet is parsed or refused: the loop over the options ends within its fuel, one round for each
-- byte of the packet and one more, and nothing panics.
pub parse_request-IsNotPanic : (packet : List ℕ) → IsNotPanic (parse_request packet)
unfolding parse_request
parse_request-IsNotPanic packet = Gives-IsNotPanic Anything _ (
    Gives-if Anything (ltb (length packet) 240) _ _ (λ h. tt)
      (λ h.
        let long = ltb→le (length packet) 240 h in
        rw
          (
            index_lem {E = Absent} packet 0 (omega arith),
            slice_lem {E = Absent} packet 236 240 (omega arith) (omega arith),
          )
          (Gives-if Anything
            (get_or packet 0 0 != op_request
              || not (eq_bytes (take (240 - 236) (drop 236 packet)) magic_cookie))
            (err absent) (parse_body packet) (λ k. tt) (λ k. parse_body-Gives packet long))))
