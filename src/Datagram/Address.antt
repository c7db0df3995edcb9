-- ===== src/Datagram/Address.antt =====
-- Socket addresses, and their copy out of libuv: CopyAddress of misc.cpp, and safe_uv.c below it.
use uvexec.Base.{ℕ, Bool, false, Option, none, some, ◌==◌, if◌then◌else◌, ℤ, pos, eq_ℤ}
use uvexec.Uv.{UvError}

-- `sockaddr`, by its family and the rest of its bytes.
pub record Address : Type 0 where
  pub family : ℕ
  pub body : ℕ

-- The two overloads of `CopyAddress`: `to` has the family `expected`, AF_INET or AF_INET6; `einval` is libuv's
-- UV_EINVAL.
unfoldable pub copy_address : ℤ → ℕ → Address → Address → Address × UvError
copy_address einval expected from to =
    if from.family == expected then (from, pos 0) else (to, einval)

-- What libuv hands to a receive callback: the size or an error, and the sender's address or NULL.
pub record Datagram : Type 0 where
  pub nrd : ℤ
  pub addr : Option Address

-- `addr == nullptr && nrd == 0`
abbrev pub is_nothing : Datagram → Bool
is_nothing d = elim d.addr [ none ↦ eq_ℤ d.nrd (pos 0) | some a ↦ false ]
