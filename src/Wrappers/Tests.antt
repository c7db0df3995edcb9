-- ===== src/Wrappers/Tests.antt =====
-- The wrappers at small inputs.
use uvexec.Base.{◌≡◌, refl, none, some, []}
use uvexec.Wrappers.Calls.{uv_close, uv_udp_send}
use uvexec.Wrappers.Reqs.{udp, timer, sockaddr_in}
use uvexec.Wrappers.Forward
use uvexec.Wrappers.Forward.{perform}

-- Overloads that are not there.
bind_datagram : perform (Forward.bind (udp 7) (sockaddr_in 8)) ≡ none
unfolding perform
bind_datagram = refl

close_timer : perform (Forward.close (timer 7) 0) ≡ some (uv_close 7 0)
unfolding perform
close_timer = refl

send_connected :
    perform (Forward.send 1 (udp 7) (record { first = 3; items = [] }) 5)
    ≡ some (uv_udp_send 1 7 3 0 0 5)
unfolding perform
send_connected = refl
