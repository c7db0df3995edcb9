-- ===== src/Request/Buffers.antt =====
-- How src/uv_util/reqs.cpp hands a span of buffers to libuv: the number of the buffers is an `unsigned`.
use uvexec.Base.{
  ℕ, zero, suc, ◌%◌, ◌^◌, ◌≤◌, ◌<◌, ◌≡◌, refl, ap, Option, none, some, List, [], ◌∷◌, arith, length,
}
use uvexec.Stream.ReadSome.{Span}

-- The array, the number of buffers and the address that libuv is called with. Addresses are numbers.
pub record BufferCall : Type 0 where
  pub bufs : List Span
  pub nbufs : ℕ
  pub addr : Option ℕ

-- `static_cast<unsigned>`
unfoldable pub to_unsigned : ℕ → ℕ
to_unsigned n = n % 2 ^ 32

-- `Write`
unfoldable pub write : List Span → BufferCall
unfolding to_unsigned
write bufs = record { bufs = bufs; nbufs = to_unsigned (length bufs); addr = none }

-- `Send` to a sockaddr_in, to a sockaddr_in6, and over a connected socket.
unfoldable pub send_in : List Span → ℕ → BufferCall
unfolding to_unsigned
send_in bufs addr = record { bufs = bufs; nbufs = to_unsigned (length bufs); addr = some addr }

unfoldable pub send_in6 : List Span → ℕ → BufferCall
unfolding to_unsigned
send_in6 bufs addr = record { bufs = bufs; nbufs = to_unsigned (length bufs); addr = some addr }

unfoldable pub send_connected : List Span → BufferCall
unfolding to_unsigned
send_connected bufs = record { bufs = bufs; nbufs = to_unsigned (length bufs); addr = none }

abbrev pub take {ℓ} : {A : Type ℓ} → ℕ → List A → List A
take zero l = []
take (suc n) [] = []
take (suc n) (x ∷ l) = x ∷ take n l

-- What libuv reads of the array.
unfoldable pub handed_over : BufferCall → List Span
handed_over c = take c.nbufs c.bufs

pub take-length {ℓ} : {A : Type ℓ} (l : List A) → take (length l) l ≡ l
take-length [] = refl
take-length (x ∷ l) = ap (λ m. x ∷ m) (take-length l)

to_unsigned-small : (n : ℕ) → n < 2 ^ 32 → to_unsigned n ≡ n
unfolding to_unsigned
to_unsigned-small n h = omega (arith, h)

handed-all :
    (bufs : List Span) (addr : Option ℕ)
    → length bufs < 2 ^ 32
    → handed_over (record { bufs = bufs; nbufs = to_unsigned (length bufs); addr = addr }) ≡ bufs
unfolding handed_over
handed-all bufs addr h = rw (to_unsigned-small (length bufs) h) (take-length bufs)

to_unsigned-bounded : (n : ℕ) → to_unsigned n ≤ n
unfolding to_unsigned
to_unsigned-bounded n = omega arith

-- Where a span has fewer than 2^32 buffers, Write and the three forms of Send hand all of them to libuv, in their order,
-- and no number beyond them.
pub buffers_handed_over :
    (bufs : List Span) (addr : ℕ)
    → length bufs < 2 ^ 32
    → ((write bufs).nbufs ≤ length bufs)
      × ((send_in bufs addr).nbufs ≤ length bufs)
      × ((send_in6 bufs addr).nbufs ≤ length bufs)
      × ((send_connected bufs).nbufs ≤ length bufs)
      × (handed_over (write bufs) ≡ bufs)
      × (handed_over (send_in bufs addr) ≡ bufs)
      × (handed_over (send_in6 bufs addr) ≡ bufs)
      × (handed_over (send_connected bufs) ≡ bufs)
unfolding write send_in send_in6 send_connected
buffers_handed_over bufs addr h = (
  to_unsigned-bounded (length bufs),
  to_unsigned-bounded (length bufs),
  to_unsigned-bounded (length bufs),
  to_unsigned-bounded (length bufs),
  handed-all bufs none h,
  handed-all bufs (some addr) h,
  handed-all bufs (some addr) h,
  handed-all bufs none h,
)
