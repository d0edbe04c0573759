-- ===== src/Lib.antt =====
-- Voxenta Agentic AI: the realtime core of an oral exam service.
--
-- The service runs oral exams with a voice model. Seven of its parts are modelled here: the proctoring
-- of the candidate's camera, the realtime session that takes a question through its turns, its variant
-- for practice, the transcription of a recording, the evaluation of an answer, the consensus of
-- several runs of a model that score it, and the costs of the services that are called.
--
-- Proctoring (Proctoring.antt): a browser offers a WebRTC connection (controller/webrtc.py), each
-- frame goes through an object detector, and what is seen becomes alerts under a streak and a
-- cooldown. Proctoring/AlertPolicy is infra/webrtc/proctoring_alert_policy.py and the gates of the
-- frame loop, Proctoring/Session is infra/webrtc/proctoring_session.py, Proctoring/Controller is
-- controller/webrtc.py, Proctoring/FrameProcessor is infra/webrtc/proctoring_frame_processor.py. The
-- detector, the clock and whether a connection closes by itself are parameters. All paths are below
-- src.
--
-- The realtime session (Realtime.antt): Realtime/Transcript is
-- realtime/turn/transcript_accumulator.py. Realtime/TurnLimit and Realtime/Processor are
-- realtime/turn/processor.py. Realtime/Session is realtime/question/session.py, Realtime/Coordinator
-- is realtime/question/coordinator.py, Realtime/Connection is realtime/attempt/connection.py (audio
-- and utterances), Realtime/Question is the question in node/state_models/speaking_input.py.
-- Realtime/Checkpoint is infra/database/archive_store.py over the channels of
-- node/followUpDecisionGraph/GraphState.py. Realtime/Archive is the archive graph of
-- node/followUpDecisionGraph/graphConfig.py, and Realtime/Followup is the follow-up graph of the same
-- file: Followup/Signals is SignalNode, Followup/Decision is FollowUpNode, Followup/Recovery is
-- RepeatRecoveryNode, Followup/Counting the helpers they share, Followup/Graph the merge.
-- Realtime/Publisher is infra/message_broker/publishers/turn_publisher.py.
--
-- Practice (Practice.antt): Practice/Session and Practice/Coordinator are
-- realtime/practice_attempt/session.py and coordinator.py, on the turn processor and the checkpoint of
-- the exam.
--
-- Scoring (Scoring.antt): utils/confidence_utils.py. Scoring/Calls is the retry and the fallback of a
-- call, Scoring/Judgment how the runs on one criterion become a judgment, Scoring/Multi the three runs
-- that score all criteria at once, in the order in which they complete, and Scoring/Reference the
-- confidence of reference transcripts.
--
-- Transcription (Speech.antt): utils/speech_client.py. Speech/Transcription is the handlers of the
-- recognizer and the transcript they make, Speech/Tags the marks for other languages,
-- Speech/WordErrors the normalization of texts and the word error rate.
--
-- Evaluation (Evaluation.antt): the nodes of node/evalGraph. Evaluation/Start is StartNode,
-- Evaluation/Validity is ValidityNode and the route after it in graphConfig.py, Evaluation/Rules is
-- mappers/schema_mapper.py, Evaluation/Scale is AzureScoreScaleNode, Evaluation/Merge is
-- MergeScoresNode.
--
-- Usage (Usage.antt): infra/message_broker/ai_usage_tracker.py and config/ai_usage_pricing.py. What
-- its buffer hands out for an answer is the usage that Realtime/Publisher sends.
--
-- A turn: the voice service feeds the accumulator, the client ends the turn, the processor writes the
-- live transcript to the checkpoint, asks the follow-up graph, applies the limits and completes the
-- turn; the publisher sends it from the live transcript, waits for the archive graph to record it, and
-- sends it again. After a dropped connection the coordinator rebuilds the session from the checkpoint
-- and decides a turn that is still pending.
--
-- Conventions: texts are lists of code points; durations are milliseconds, confidences are millionths,
-- averages are exact fractions, the scores of a model millionths and those on the scale of a rubric
-- hundredths, where Python has floats. The checkpointer is a map from thread ids to values. The turn
-- processor takes any graph that returns; the theorems in Followup apply it to this one. A model's
-- reply that is JSON but no object makes a node raise (invoke_graph in Followup/Graph): then no turn
-- is completed, and text_followup_graph, which the rounds of the processor use, is the graph where no
-- node raises. The models that the graph asks, the speech service, the length of an audio file and the
-- items of the usage buffer that the publisher sends are parameters. Concurrent calls of the publisher
-- are steps between awaits; a run of the archive graph beside them holds the channels that it read at
-- its start, and its checkpoints replace what was written meanwhile. Everywhere else a write to the
-- checkpoint is one step. A message that the socket fails to send raises nothing, as in
-- infra/realtime_socket.py. No definition runs on fuel: the loop that waits for a recording is
-- recursion on its list of delays, which is the one of the source.
--
-- Not modelled: prompts and model calls, the nodes for pronunciation, answer length and language
-- quality, the evaluation of practice, question and topic generation, the connection of a practice
-- session, sockets, the broker, storage, generated stubs and the retired avatar.
pub mod Evaluation
pub mod Practice
pub mod Prelude
pub mod Proctoring
pub mod Realtime
pub mod Scoring
pub mod Speech
pub mod Usage
