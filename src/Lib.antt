-- ===== src/Lib.antt =====
-- A verification library of the Go code of this repository, which holds ten programs under projects/.
-- Modelled are the core of projects/01-mpc-cluster, the messages and the decoding of transactions of
-- projects/02-wallet-scoring, the settlement and the redemption of projects/03-cfa-bonds, and the
-- store and the messages of projects/10-distributed-kv. The first is a cluster that computes on
-- secret-shared inputs: a coordinator keeps sessions in Postgres, shares the inputs of a session among
-- its nodes and recombines what they send back; the nodes add, multiply and compare their shares, the
-- last two with messages to each other. The second scores wallets from a stream of transactions, which
-- it decodes from protobuf and from the bytes of the chain. The third trades bonds: a worker takes a
-- trade from a queue, checks the seller's position and the buyer's balance, and moves units and cash
-- in one transaction; an issue that is due is redeemed, for the holders of its units. The fourth is
-- the state machine under a raft log, with its snapshots.
--
-- The parts, and the files that model them, of projects/01-mpc-cluster:
--
--   internal/protocol/field.go       Mpc/Field.antt       residues modulo p
--   internal/protocol/sharing.go     Mpc/Sharing.antt     additive and Shamir shares
--   internal/protocol/beaver.go      Mpc/Beaver.antt      multiplication triples
--   internal/protocol/operations.go  Mpc/Operations.antt  what a node runs on its shares
--   internal/session/model.go        Mpc/Session.antt     sessions, rounds, node records
--   internal/session/store.go        Mpc/Session/Store.antt      the statements on the tables
--   internal/session/manager.go      Mpc/Session/Collector.antt  the collector of results
--                                    Mpc/Session/Inputs.antt     sharing and recombination
--                                    Mpc/Session/Manager.antt    the handlers
--   internal/grpc/proto.go           Mpc/Session/Task.antt       the messages of a task
--   internal/node/worker.go          Mpc/Node.antt               what a node computes
--   internal/grpc/proto.go           Mpc/Grpc.antt               the messages on the wire
--   internal/grpc/codec.go           Mpc/Grpc/Codec.antt         the codec over all of them
--
-- of projects/02-wallet-scoring:
--
--   internal/common/protowire.go   Wallet/ProtoParser.antt    a parser that keeps its first error
--                                  Wallet/ProtoBuilder.antt   the writing of fields
--   internal/common/grpccodec.go   Wallet/Grpcint/Codec.antt  the codec
--   internal/grpcint               Wallet/Grpcint.antt        the messages of the aggregator
--   internal/proto/geyser.pb.go    Wallet/Geyser.antt         the updates of the stream
--   internal/solana/programs.go    Wallet/Solana.antt         programs and kinds of instructions
--   internal/models                Wallet/Solana.antt         transactions and instructions
--   internal/solana/base58.go      Wallet/Solana/Base58.antt  addresses as text
--   internal/solana/parser.go      Wallet/Solana/Reader.antt  a reader that keeps its first error
--                                  Wallet/Solana/Parser.antt  the bytes of a transaction
--   internal/solana/swap_decoder.go  Wallet/Solana/Swap.antt  the swaps of a transaction
--   internal/solana/geyser.go      Wallet/Solana/Update.antt  an update as a transaction
--
-- and of projects/03-cfa-bonds:
--
--   internal/models                         Cfa/Models.antt      issues, positions, trades
--   internal/repo                           Cfa/Repo.antt        the statements on the tables
--   internal/settlement/engine.go           Cfa/Settlement.antt  the processing of a trade
--   internal/settlement/accrued_interest.go Cfa/Settlement.antt  accrued interest
--   internal/maturity/service.go            Cfa/Maturity.antt    the redemption of issues
--
-- and of projects/10-distributed-kv:
--
--   internal/store  Kv.antt       commands, the store, its snapshots
--   internal/grpc   Kv/Grpc.antt  forwarded requests and their codec
--
-- Functions and fields keep their names in snake case; Go's pair of a value and an error is the type
-- Result of Common/Results.antt, and an error is a constructor for each format string (Mpc/Error.antt,
-- Mpc/Session/Errors.antt). A handler is a function from the state to a result and the new state
-- (Common/Effects.antt), so that what was written before an error stays written. The database is three
-- lists of rows with a list of faults that says which of the statements to come fail; a statement is
-- atomic. The manager's maps hold addresses of collectors on a heap, since Execute goes on with the
-- collector that it made while the map may hold another. In Cfa a transaction (Common/Database.antt)
-- runs its body and gives back the tables as they were where the body or the commit fails; it is
-- serializable in the code, so that nothing runs in between. Reads before the transaction are
-- statements of their own.
--
-- Execute is the composition of prepare, publish, start and finish, and other handlers may run before
-- finish, while it waits for results. Whether the time is over is an argument of finish.
--
-- Randomness is the list of the numbers that the reader will still yield; an empty list is a reader
-- that fails. Numbers of math/big are the integers of Common/Int.antt; a field element is kept as the
-- natural number that reduce makes of it. Counts, node ids and lengths are natural numbers: the code
-- refuses negative counts as it refuses 0, and negative node ids are not modelled. int has 64 bits, and
-- no sum of lengths comes near its bound; a length in a payload wraps at 2 ^ 32 as in the code. Maps
-- are association lists with the order of insertion, and where the order of a range could matter
-- (the messages of the peers) the theorems hold for every order. Loops are structural recursions;
-- the fuel of bytes and decimal is the number itself, which has fewer digits than that.
--
-- The messages are written and read by google.golang.org/protobuf/encoding/protowire, which is the
-- record Protowire of Common/Wire.antt: a function for each one of that package that the code calls,
-- on lists of bytes. The theorems on messages use the laws IsWire, that what is appended is consumed
-- with the same value and leaves what follows, and that a tag and a number have a byte at least.
-- Common/Wire/Plain.antt is a small format with these laws. The loop over the fields of a message runs
-- on as much fuel as there are bytes, which is enough since each round reads a tag; running out of it
-- is the error stuck. A float64 is the number of its bits. The data of an instruction, a text in base
-- 64 in the code, are the bytes that it stands for. The panic of a slice past its capacity is an error
-- value of its own.
--
-- Parameters: protowire, as said; shopspring's decimals (Cfa/Decimal.antt), of which the theorems use
-- that sums are exact; the encoding of JSON (the record Json of Kv.antt), of which a theorem uses that
-- it is faithful for one map; Split and Combine of hashicorp/vault, the network between the nodes
-- (PeerNetwork), and which node jobs Kubernetes refuses. Not modelled: logging, Redis messages, caches,
-- Kafka and the deletion of jobs, whose failures the code only logs; the texts of reasons and payloads;
-- timestamps that no decision reads; the polling of the nodes; the stream of updates itself and the
-- features of wallets; the other programs of the repository, among them the ones in C++ and Python.
pub mod Cfa
pub mod Common
pub mod Kv
pub mod Mpc
pub mod Wallet
