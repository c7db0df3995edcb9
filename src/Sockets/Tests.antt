-- ===== src/Sockets/Tests.antt =====
-- Loops whose sockets could not be constructed.
use uvexec.Base.{◌≡◌, refl, false, ◌==◌, if◌then◌else◌, pos, negsuc}
use uvexec.Uv.{UvError, is_error}
use uvexec.Sockets.{Handles}

-- uv_loop_close with UV_EBUSY
abbrev loop_close : Handles → UvError
loop_close n = if n == 0 then pos 0 else negsuc 15

free : is_error (loop_close 0) ≡ false
unfolding is_error
free = refl
