-- ===== src/Hook.antt =====
-- myhook.c: the names of the C library that libmyhook.so defines itself, each a call of this
-- library, and what the plain calls of uthread_socket.c mean once it is linked in.
pub mod Recursion
use uthread.Base.{ℕ, zero, suc, Option, none, some, List, ℤ, pos}
use uthread.Types.{Ptr}
use uthread.Machine.{M, Env, pure, raise, out_of_fuel, ◌>>=◌}
use uthread.Lifecycle.{uthread_self, uthread_exit, uthread_detach}
use uthread.Create.{uthread_create}
use uthread.Join.{uthread_join}
use uthread.Socket.Linked.{Linked}
use uthread.Socket.{
  uthread_socket, uthread_accept, uthread_connect, uthread_read, uthread_recv, uthread_recvmsg,
  uthread_recvfrom, uthread_sendmsg, uthread_sendto, uthread_write, uthread_recv_exact,
  uthread_read_exact, uthread_send, uthread_writev,
}

-- `enable_hook`, whose call links the library in
unfoldable pub enable_hook : ℤ
enable_hook = pos 1

unfoldable pub pthread_detach : Ptr → M ℤ
pthread_detach thread = uthread_detach thread

unfoldable pub pthread_self : M (Option (Option Ptr))
pthread_self = uthread_self

module _ ⦃e : Env⦄ where
  -- the result, and what is stored as the thread's identifier
  unfoldable pub pthread_create : ℕ → ℕ → M (ℤ × Option Ptr)
  pthread_create start_rtn arg = uthread_create start_rtn arg

  unfoldable pub pthread_join : Ptr → Option ℕ → M ℤ
  pthread_join thread retval = uthread_join thread retval

  unfoldable pub pthread_exit : Option ℕ → M (Unit {0})
  pthread_exit retval = uthread_exit retval

  unfoldable pub socket : M ℤ
  socket = uthread_socket

  unfoldable pub connect : ℕ → ℤ → M ℤ
  connect fuel sockfd = uthread_connect fuel sockfd

  unfoldable pub accept : ℕ → ℤ → M ℤ
  accept fuel sockfd = uthread_accept fuel sockfd

  unfoldable pub read : ℕ → ℤ → ℕ → ℕ → M ℤ
  read fuel fd buf length = uthread_read fuel fd buf length

  unfoldable pub write : ℕ → ℤ → ℕ → ℕ → M ℤ
  write fuel fd buf length = uthread_write fuel fd buf length

  module _ (c : Linked) where
    pub recv : ℕ → ℤ → ℕ → ℕ → M ℤ
    recv fuel fd buf length = uthread_recv c fuel fd buf length

    unfoldable pub recvmsg : ℕ → ℤ → M ℤ
    recvmsg fuel fd = uthread_recvmsg c fuel fd

    unfoldable pub recvfrom : ℕ → ℤ → ℕ → ℕ → M ℤ
    recvfrom fuel fd buf length = uthread_recvfrom c fuel fd buf length

    unfoldable pub recv_exact : ℕ → ℤ → ℕ → ℕ → M ℤ
    recv_exact fuel fd buf length = uthread_recv_exact c fuel fd buf length

    unfoldable pub read_exact : ℕ → ℤ → ℕ → ℕ → M ℤ
    read_exact fuel fd buf length = uthread_read_exact c fuel fd buf length

    unfoldable pub send : ℕ → ℤ → ℕ → ℕ → M ℤ
    send fuel fd buf length = uthread_send c fuel fd buf length

    unfoldable pub sendmsg : ℕ → ℤ → M ℤ
    sendmsg fuel fd = uthread_sendmsg c fuel fd

    unfoldable pub sendto : ℕ → ℤ → ℕ → ℕ → M ℤ
    sendto fuel fd buf length = uthread_sendto c fuel fd buf length

    unfoldable pub writev : ℕ → ℤ → List (ℕ × ℕ) → M ℤ
    writev fuel fd iov = uthread_writev c fuel fd iov

  -- What the names that uthread_socket.c calls mean with libmyhook.so linked in: the definitions
  -- above, whose own calls go the same way; `depth` bounds how deep.
  pub hooked : ℕ → ℕ → Linked
  hooked zero fuel = record {
    read = λ fd buf n. raise out_of_fuel;
    recv = λ fd buf n. raise out_of_fuel;
    recvmsg = λ fd. raise out_of_fuel;
    recvfrom = λ fd buf n. raise out_of_fuel;
    send = λ fd buf n. raise out_of_fuel;
    sendmsg = λ fd. raise out_of_fuel;
    sendto = λ fd buf n. raise out_of_fuel;
    writev = λ fd iov. raise out_of_fuel;
  }
  hooked (suc depth) fuel =
      let c = hooked depth fuel in
      record {
        read = read fuel;
        recv = recv c fuel;
        recvmsg = recvmsg c fuel;
        recvfrom = recvfrom c fuel;
        send = send c fuel;
        sendmsg = sendmsg c fuel;
        sendto = sendto c fuel;
        writev = writev c fuel;
      }
