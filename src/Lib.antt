-- ===== src/Lib.antt =====
-- Ironfish, a distributed chess analysis service: a verification of its own logic.
--
-- Nodes gossip about tokens and members, elect a leader, and run analyses on pools of engine
-- processes. A layer in front of the HTTP API lets a request through for a token that the store
-- knows; the server makes the parts from its configuration and hands the API's messages about
-- tokens to the network, where other nodes' services take them up.
--
-- Base: shared names and lemmas. Base/Maps has a HashMap or a sled tree as an association list,
--   whose order stands for the order in which a map is walked. Base/Texts has a string as the list
--   of its Unicode scalar values, Base/Numbers whole numbers and str::parse.
-- Core: crates/ironfish-core. Core/Error is error.rs, Core/Cluster, Core/Token, Core/Analysis and
--   Core/Chess are the files of types/, and Core/Gossip the messages of traits.rs. In Core/Chess the
--   outer Option of from_uci is none where a byte slice panics; Core/Chess/Boards describes the
--   squares of a rank on its own, and Core/Chess/Moves has the round trip.
-- Cluster: crates/ironfish-cluster. Cluster/Node is node.rs; Cluster/Consensus has a file for each
--   of consensus/raft.rs, bully.rs and hybrid.rs, and Cluster/Consensus/History runs their handlers
--   (request_vote, append_entries, the elections) over any sequence of events. vote_read and
--   vote_write are request_vote before and behind the point where it lets go of its lock.
--   Cluster/Membership, Cluster/LoadBalancer, Cluster/Gossip and Cluster/Network are the files of
--   those names. Of cluster_service.rs, Cluster/Service has a function for one round of each task,
--   and Cluster/Service/Lifecycle new, start and stop with the tasks as a list. Cluster/Discovery is
--   discovery/mod.rs, Cluster/Discovery/Sources has static_conf.rs, seed.rs and dns.rs, and
--   Cluster/Discovery/Multicast is multicast.rs.
-- Auth: crates/ironfish-auth. Auth/Store is store.rs, a state with the two trees and a script of
--   the database's errors; Auth/Store/Refinement has the map from identifiers to tokens that its
--   calls stand for. Auth/Token is token.rs and Auth/Middleware is middleware.rs, whose call returns
--   the response with the update that it leaves to a task. Auth/Middleware/Issued goes from the
--   issue of a token to the request that uses it.
-- Stockfish: crates/ironfish-stockfish. Stockfish/Uci, Stockfish/Engine and wait_for are engine.rs,
--   and Stockfish/Pool is pool.rs; Stockfish/Engine/Lines has a line of an engine with its numbers
--   in decimal. Of analysis.rs, Stockfish/Analysis has the loop of collect_analysis with its result,
--   and Stockfish/Streaming that of collect_analysis_streaming, each read with whether the token is
--   cancelled just before it. Stockfish/Service runs analyze and best_move on an engine of
--   Stockfish/Service/Process, which is the commands it was sent, how its next writes end and what
--   it will write; a timeout is the number of reads that come before it. Stockfish/Service/Streamed
--   does the same for analyze_streaming, whose token is cancelled before a given read.
-- Api: crates/ironfish-api. Api/State is the ApiState of router.rs, whose channel is the list of the
--   messages sent. Api/Rest and Api/Rest/Tokens are rest/handlers.rs, Api/GraphQl and
--   Api/GraphQl/Tokens graphql/resolvers.rs, Api/Grpc and Api/Grpc/Cluster grpc/service.rs with the
--   messages of proto/chess.proto, and Api/Agreement compares them. Api/Router has the routes of
--   rest/mod.rs and graphql/schema.rs and the rest of router.rs. Api/Session is ws/session.rs:
--   handle_message and the functions it calls, with the tasks that a session spawns as a list, and
--   Api/Session/Tasks what each then does. Api/Manager is ws/manager.rs, and Api/Socket
--   ws/handler.rs, whose loops run over a list of events.
-- Server: crates/ironfish-server. Server/Config is config.rs: the settings and their defaults, with
--   the text of a file as Server/Config/Sections and its reading in Server/Config/Load, where the
--   outer Option of load is none for a panic. Server/App is app.rs: Application::new, the task that
--   run spawns in Server/App/Gossip, and in Server/App/Issue and Server/App/Revocation the way of a
--   token from one node's API to another node's store.
-- Cli: crates/ironfish-cli. Cli has the commands of main.rs and commands/ with the requests that they
--   send, and Cli/Refused sends these to the API's router.
--
-- Every Examples module applies theorems of its part to concrete data.
--
-- Integers. A u64, usize, u32 or u16 is a natural number, and where the code adds to one or casts
-- one the wrap-around is written out. An instant is its nanoseconds, a UUID its 128 bits. A float is
-- its bits, and the operations on floats are an argument of the load balancer.
--
-- Fuel. read_tokens of Stockfish/Uci has the number of tokens as fuel, one round for each at most.
-- decimal of Stockfish/Engine has 20 digits, as many as the largest u64. The other loops are
-- structural. A loop over an engine's output, a socket or a channel runs over what comes before its
-- timeout, and is waiting when that is used up.
--
-- Arguments for code that is not of this repository: serde_json as Codec (decoding gives back what
-- was encoded) and as the Json of discovery, the errors of sled as a script, ring, base64 and chrono
-- as Crypto, the floats of the load balancer, the texts of addresses and UUIDs with their parsers,
-- the resolver and the ends of connections, the environment, the file system with the decoded TOML
-- file, which paths a pattern of axum matches, and what reads of sockets and of engines bring.
--
-- Not modelled: what the client prints of an answer, the integration tests, the server's main
-- function with its logging and listening and the wait for a signal, and the layers for CORS, traces
-- and compression.
-- Sockets, processes and logging are left out throughout.
pub mod Base
pub mod Core
pub mod Cluster
pub mod Auth
pub mod Stockfish
pub mod Api
pub mod Server
pub mod Cli
