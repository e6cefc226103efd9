-- ===== src/PodManager/Server.antt =====
-- `hook_thread_func` of src/pod-manager.cpp: the thread that serves a connection of the hook library. What
-- `hook_kernel_launch` answers is an argument, with the bits of the two doubles it is given.
use gemini.Prelude.{ℕ, zero, suc, Option, none, some}
use gemini.Comm.Buffer.{Buffer, zeros, get_msg_data, ◌>>=◌}
use gemini.Comm.Messages.{
  Answer, rsp_quota, rsp_mem_limit, rsp_mem_update, Parsed, parse_request, prepare_response,
  rsp_msg_len,
}
use gemini.PodManager.Memory.{Memory, hook_update_memory_usage}

-- The message that is sent, if any, and the memory accounting.
abbrev pub Served : Type 0
Served = Option Buffer × Memory

abbrev pub reply : ℕ → Answer → Memory → Option Served
reply rid a m = prepare_response rid a (zeros rsp_msg_len) >>= λ c. some (some c.0, m)

module _ (launch : ℕ → ℕ → ℕ) where
  -- The cases of `req`; a request of another type is not answered.
  unfoldable pub answer_request : ℕ → ℕ → Parsed → Buffer → Memory → Option Served
  unfolding hook_update_memory_usage zeros
  answer_request zero sockfd r buf m = get_msg_data 8 (buf, r.attached_pos) >>= λ overuse_ms.
      get_msg_data 8 (buf, overuse_ms.1) >>= λ burst.
      reply r.id (rsp_quota (launch overuse_ms.0 burst.0)) m
  answer_request (suc zero) sockfd r buf m =
      reply r.id (rsp_mem_limit m.gpu_mem_used m.gpu_mem_limit) m
  answer_request (suc (suc zero)) sockfd r buf m =
      get_msg_data 8 (buf, r.attached_pos) >>= λ mem_size.
      get_msg_data 4 (buf, mem_size.1) >>= λ allocate.
      let (ok, m') = hook_update_memory_usage mem_size.0 allocate.0 sockfd m in
      reply r.id (rsp_mem_update ok) m'
  answer_request _ sockfd r buf m = some (none, m)

  -- One pass of the loop.
  unfoldable pub serve : ℕ → Buffer → Memory → Option Served
  unfolding answer_request
  serve sockfd buf m = parse_request buf >>= λ r. answer_request r.type_code sockfd r buf m
