-- ===== src/Lib.antt =====
-- A verification library for streamcore-server, a voice-agent server in Go: a client opens a
-- session over WHIP (RFC 9725), and each session owns a WebRTC peer and a conversation that
-- outlives it.
--
-- The parts, and the files that model them:
--   internal/session/manager.go     Session/Manager: the sessions of the process and the index of resume
--                                   tokens. Below it, Invariant, Reaper, Tokens, Capacity are about calls
--                                   that follow one another, Histories about calls that overlap.
--   internal/session/session.go     Session/State: one session, its peers, ETag, token and identity.
--                                   Below it, Eviction and StaleClose.
--   internal/peer/peer.go           Session/Connection: the life of one peer connection.
--   internal/peer/icerestart.go     Ice: the SDP texts of an ICE restart; Ice/Exchange is RestartICE.
--   internal/pipeline/conversation.go, transcript.go   Session/Conversation.
--   internal/signaling/rate_limiter.go   Signaling/RateLimiter, and Signaling/ClientIp for the address.
--   internal/signaling/handler.go, identity.go   Signaling/Http, Post, Patch and Handler.
--   internal/pipeline/inbound.go, duck.go   Pipeline/Inbound: the barge-in state machine.
--   internal/pipeline/turnbuffer.go   Pipeline/TurnBuffer: finals that are merged into turns.
--   internal/pipeline/bargein.go    Pipeline/Phrases: the predicates on a caller's words.
--   internal/pipeline/partial.go    Pipeline/Reflex: the tools that a partial transcript calls. Matching
--                                   finds phrases, Staging holds captures, Dedup records what was sent.
--   internal/pipeline/realtime_turn.go, realtime_audio.go   Pipeline/Realtime: the user's turn and the
--                                   queue of the agent's audio.
--   internal/vad/vad.go, echo.go    Vad: Detector is the voice detector, EchoGuard its echo reference.
--   internal/audio/rtp.go           Audio: samples and bytes.
--   internal/stt/transcript.go      Stt/Transcript: two chunks of a transcript that overlap.
--   internal/tts/limiter.go         Tts/Limiter: the slots that the requests for speech share.
--   internal/llm/openai.go          Llm/History: the messages that the model is sent; Llm/Chat: the
--                                   rounds of tool calls in a turn.
--   internal/plugin/manifest.go     Plugin/Manifest: what a plugin.yaml says; Accepts is Validate.
--   internal/plugin/manager.go, session.go   Plugin/Manager: the registry of tools, loading, the ready
--                                   pass, sinks and CallTool; Plugin/Skills: the skill files.
--   internal/plugin/dispatch.go, result.go   Plugin/Dispatch: packet tools; Plugin/Result.
--   internal/plugin/tool.go         Plugin/External: captures and the prompts of confirmations.
--   internal/plugin/external.go     Plugin/Host: Restart is a process's recovery, Calls the requests
--                                   that share its pipe.
--   internal/plugin/callbacks.go    Plugin/Callbacks: what a plugin asks the server for.
--   internal/pipeline/toolgate.go   Pipeline/ToolGate: a call from the handler in pipeline.go through
--                                   the gate to its packets, and fireReflex of partial.go.
--   internal/pipeline/agent.go      Pipeline/Agent: which response owns the agent's voice.
--   internal/pipeline/lifecycle.go  Pipeline/Lifecycle: the event that a response is complete.
--   internal/plugin/confirm.go      Plugin/Confirm, and Plugin/Confirm/Split for the JSON around it.
-- The handler calls the limiter first, then the manager and the session, and RestartICE for a PATCH.
-- The detector reads
-- the threshold of the echo guard, which the sender feeds. A tool call goes through the registry, the
-- confirmation gate, the tool, the result envelope, the record of what partials sent and the data
-- channel; Pipeline/ToolGate composes the models of these.
--
-- State is explicit: an operation takes the state and returns the new one, and stands for the call of it
-- from its start to its end, with no other call between. That holds of the WHIP handlers, of the manager's calls,
-- each of which enters several mutexes, and of a turn of the chat. Where calls overlap is a step relation: its steps
-- are the sections under one mutex and the atomic operations. Session/Manager/Histories, Pipeline/Agent,
-- Pipeline/Lifecycle, Plugin/Host/Calls and Tts/Limiter are of this kind. Both maps of the manager and the map of a
-- session hold pointers, so sessions and peers are places in a heap.
-- Times are nanoseconds in ℕ, the clock is an argument of each call, and so are random tokens and
-- UUIDs. Texts are lists of code points, or of bytes for a request's body; maps are association
-- lists. A limit, window or lifetime that is not positive is 0. The sequence number of a
-- conversation wraps at 2 ^ 64, as does the version of an `o=` line. The recursion is structural;
-- the digits of a 64-bit number take 20 steps, and the pump of the audio queue is followed for as
-- many calls as the theorem on it asks for. Samples are the 16-bit patterns of int16.
--
-- Parameters stand for code outside the repository: Pion's peer connection
-- (Ice/Exchange.Connection), encoding/json and crypto/sha256 (Plugin/Confirm/Split.Json), package
-- unicode (Strings.Unicode), strings.EqualFold, the LLM service and the tools' handlers (Llm/Chat),
-- float64 and math.Sqrt (Vad.Floats), and the outcomes of uuid.New, peer.New and HandleOffer
-- (Signaling/Http.Outcomes). For the plugins they are encoding/json, base64 and float64 at the types
-- that are used (Plugin/Dispatch, Plugin/Result, Plugin/External, Pipeline/ToolGate.Outside), YAML,
-- and what a process answers. net.SplitHostPort and the functions of strings and strconv that the
-- code calls are written out as documented.
--
-- Not modelled: the STT, TTS, LLM, retrieval and realtime providers as far as they are clients of
-- remote services; Opus, RTP and the resampler; the prompt and the audio of a turn in
-- internal/pipeline; the operating system's side of plugin processes; configuration loading, the TURN server and start-up. Logging and the headers that
-- http.Error sets itself are left out.
pub mod Base
pub mod Strings
pub mod Audio
pub mod Vad
pub mod Stt
pub mod Tts
pub mod Llm
pub mod Ice
pub mod Plugin
pub mod Session
pub mod Signaling
pub mod Pipeline
pub mod Examples
