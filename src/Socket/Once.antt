-- ===== src/Socket/Once.antt =====
-- The calls that succeed at the first transfer: accept, connect, read, recv, recvmsg, recvfrom,
-- sendmsg, sendto.
use uthread.Base.{ℕ, zero, suc, not, ◌||◌, ◌==◌, ℤ, pos, minus_one, eqb_ℤ, ltb_ℤ, if◌then◌else◌}
use uthread.Status.{rd, wr}
use uthread.Status.St
use uthread.Types.{Ptr}
use uthread.Machine.{
  M, Call, Env, syscall, pure, raise, out_of_fuel, ◌>>=◌, ◌>>◌, get, modify, assert_that,
}
use uthread.Sleep.{register_event}
use uthread.Socket.Linked.{
  Linked, eagain, enfile, emfile, econnaborted, etimedout, einprogress, minus_two, would_block,
  status_has, running,
}

module _ ⦃e : Env⦄ where
  -- `assert(fcntl(fd, F_SETFL, O_NONBLOCK) != -1)`
  unfoldable pub set_nonblock : ℤ → M (Unit {0})
  set_nonblock fd = do r ← syscall (Call.set_nonblock fd); assert_that (not (eqb_ℤ r minus_one))

  unfoldable pub uthread_socket : M ℤ
  uthread_socket = do
    sock_fd ← syscall Call.sys_socket
    assert_that (not (eqb_ℤ sock_fd minus_one))
    set_nonblock sock_fd
    pure sock_fd

  unfoldable pub accept_loop : ℕ → Ptr → ℤ → M ℤ
  accept_loop zero ut sockfd = raise out_of_fuel
  accept_loop (suc fuel) ut sockfd =
      let again = accept_loop fuel ut sockfd in
      do
        res ← syscall (Call.sys_accept sockfd)
        s ← get
        if not (eqb_ℤ res minus_one)
            then pure res
            else if (s.errno == eagain) || ((s.errno == enfile) || (s.errno == emfile))
            then (do register_event ut sockfd rd 0; again)
            else if s.errno == econnaborted
            then again
            else pure minus_one

  unfoldable pub uthread_accept : ℕ → ℤ → M ℤ
  uthread_accept fuel sockfd = do ut ← running; accept_loop fuel ut sockfd

  unfoldable pub connect_loop : ℕ → Ptr → ℤ → M ℤ
  connect_loop zero ut sockfd = raise out_of_fuel
  connect_loop (suc fuel) ut sockfd =
      let again = connect_loop fuel ut sockfd in
      do
        res ← syscall (Call.sys_connect sockfd)
        s ← get
        if not (eqb_ℤ res minus_one)
            then pure res
            else if (s.errno == eagain) || (s.errno == einprogress)
            then (do
              register_event ut sockfd wr 0
              late ← status_has ut St.expired
              if late
                  then (do modify λ t. record t { errno = etimedout }; pure minus_one)
                  else again)
            else pure minus_one

  unfoldable pub uthread_connect : ℕ → ℤ → M ℤ
  uthread_connect fuel sockfd = do ut ← running; connect_loop fuel ut sockfd

  -- the loop of the read and recv family: `timeout` is what it waits with
  unfoldable pub input_loop : ℕ → M ℤ → ℕ → Ptr → ℤ → M ℤ
  input_loop zero call timeout ut fd = raise out_of_fuel
  input_loop (suc fuel) call timeout ut fd =
      let again = input_loop fuel call timeout ut fd in
      do
        eof ← status_has ut St.fdeof
        if eof then pure minus_one else (do
          set_nonblock fd
          ret ← call
          s ← get
          if would_block ret s
              then (do
                register_event ut fd rd timeout
                late ← status_has ut St.expired
                if late then pure minus_two else again)
              else if eqb_ℤ ret minus_one
              then pure minus_one
              else if ltb_ℤ ret (pos 0)
              then again
              else pure ret)

  unfoldable pub uthread_read : ℕ → ℤ → ℕ → ℕ → M ℤ
  uthread_read fuel fd buf length = do
    ut ← running
    input_loop fuel (syscall (Call.input fd buf length)) 1000 ut fd

  -- the loop of sendmsg and sendto
  unfoldable pub output_loop : ℕ → M ℤ → Ptr → ℤ → M ℤ
  output_loop zero call ut fd = raise out_of_fuel
  output_loop (suc fuel) call ut fd =
      let again = output_loop fuel call ut fd in
      do
        eof ← status_has ut St.fdeof
        if eof then pure minus_one else (do
          ret ← call
          s ← get
          if not (ltb_ℤ ret (pos 0))
              then pure ret
              else if would_block ret s
              then (do register_event ut fd wr 0; again)
              else if eqb_ℤ ret minus_one
              then pure minus_one
              else again)

  module _ (c : Linked) where
    unfoldable pub uthread_recv : ℕ → ℤ → ℕ → ℕ → M ℤ
    uthread_recv fuel fd buf length = do
      ut ← running
      input_loop fuel (c.recv fd buf length) 0 ut fd

    unfoldable pub uthread_recvmsg : ℕ → ℤ → M ℤ
    uthread_recvmsg fuel fd = do ut ← running; input_loop fuel (c.recvmsg fd) 0 ut fd

    unfoldable pub uthread_recvfrom : ℕ → ℤ → ℕ → ℕ → M ℤ
    uthread_recvfrom fuel fd buf length = do
      ut ← running
      input_loop fuel (c.recvfrom fd buf length) 0 ut fd

    unfoldable pub uthread_sendmsg : ℕ → ℤ → M ℤ
    uthread_sendmsg fuel fd = do ut ← running; output_loop fuel (c.sendmsg fd) ut fd

    unfoldable pub uthread_sendto : ℕ → ℤ → ℕ → ℕ → M ℤ
    uthread_sendto fuel fd buf length = do
      ut ← running
      output_loop fuel (c.sendto fd buf length) ut fd
