-- ===== src/Lib.antt =====
-- The core services of a NestJS backend for renting: accounts and their tokens, the guards of the
-- routes, payments with their webhook, and chat with its rooms. The definitions are translated from
-- the TypeScript sources; the theorems are about these definitions.
--
-- How the parts interact. A route is guarded by the rate limit (Guards.RateLimit), the access guards
-- (Guards.Access), which verify the access tokens that the authentication service signs (Auth.Service).
-- That service keeps users in PostgreSQL, one-time passwords (Auth.Otp) and a blacklist of refresh
-- tokens in Redis. The Stripe webhook (Payments.Stripe) creates transactions through the transaction
-- service (Payments.Transactions), which puts a cache in front of MongoDB; the RevenueCat webhook
-- (Payments.RevenueCat) looks them up there. Messages (Chatting.Messages) go to the room of their
-- conversation, Chatting.ReadStatus keeps who read them, Socket.Rooms who is in which room and
-- Socket.Presence who is online. What is bought goes through the strategies and gateways of
-- Payments.Strategies, or for subscriptions through Subscriptions.Purchases, which sells the plans of
-- Subscriptions.Plans. Settings and the counts of notifications are read through Redis.
--
-- Which file models which source:
--   Auth.Service            src/features/authentication/auth/auth.service.ts: login, register,
--                           refreshToken as refresh_token, logout, forgotPassword, resetPassword,
--                           oauthLogin, generateTokens, blacklistToken
--   Auth.Otp                src/features/authentication/otp/otp.service.ts: createOtp, verifyOtp, ...
--   Guards.RateLimit        libs/common/src/guards/sliding-window-rate-limit.guard.ts: canActivate
--   Guards.Access           libs/common/src/guards/auth.guard.ts, roles.guard.ts and
--                           secondary-user.guard.ts
--   Payments.Transactions   src/features/payment.module/paymentTransaction/services/
--                           paymentTransaction.service.ts: create, findById, updateStatus, delete, ...
--   Payments.Stripe         src/features/payment.module/stripeWebhook/services/
--                           stripeWebhook.service.ts: processEvent and its handlers, the retries
--   Payments.RevenueCat     src/features/payment.module/revenueCatWebhook/services/
--                           revenueCatWebhook.service.ts: processEvent and its handlers
--   Chatting.Messages       src/features/chatting/message/message.service.ts
--   Chatting.ReadStatus     src/features/chatting/messageReadStatus/messageReadStatus.service.ts
--   Chatting.Conversations  src/features/chatting/conversation/conversation.service.ts
--   Payments.Strategies     src/features/payment.module/payment: payment.service.ts,
--                           strategies/purchase.strategy.ts and gateways/stripe.gateway.ts
--   Subscriptions.Plans     src/features/subscription.module/subscriptionPlan/services
--   Subscriptions.Purchases src/features/subscription.module/userSubscription/services
--   Notifications           src/features/notification/notification.service.ts
--   Users.Devices           src/features/user-management/userDevices/userDevices.service.ts
--   Users.OauthAccounts     src/features/user-management/oauthAccount/oauthAccount.service.ts
--   Users.Profiles          src/features/user-management: user/user.service.ts and
--                           userProfile/userProfile.service.ts
--   Content.Generic         libs/common/src/generic/generic.service.ts: pages, create, update, delete
--   Content.Settings        src/features/settings/services/settings.service.ts
--   Redis                   libs/redis/src/redis.service.ts: getOrSet, invalidate
--   Socket.Rooms            src/features/socket.gateway/services/socket-room.service.ts
--                           with the feed of activities (Socket.Rooms.Feed)
--   Socket.Presence         src/features/socket.gateway/services/socket-auth.service.ts:
--                           handleUserConnection, handleUserDisconnection, the cleanup job
--   Socket.Gateway          src/features/socket.gateway/socket.gateway.ts: handleConnection and
--                           handleDisconnect
--   External                what the services call and the repository does not contain: Redis strings,
--                           sets, sorted sets and lists, tables, tokens and password hashes, each as a record
--                           of operations and of the documented behaviour that the proofs use;
--                           External.Memory fills them with functions, which the tests run on
--   Prelude                 tests, lists, results and characters that all parts share
--
-- State and errors. An operation takes the state and gives a result with the state after it: what a
-- handler wrote before it threw stays written. Exceptions are values of HttpError with their message.
-- Time, random digits, salts, new ids and the answers of mail and payment servers are arguments; an
-- operation reads the clock once. Calls run one after another, a list of calls is a run of the service.
-- Ids and currencies' amounts are natural numbers, texts that are lowered or compared are lists of
-- character codes, lowered as ASCII. No definition needs fuel: every loop is over a list.
--
-- Not modelled: interleavings inside a call, failures of Redis in the middle of one, logging, and the
-- parts of the repository that are mainly queries or I/O: attachments, Stripe accounts, queue processors and
-- wiring.
pub mod Prelude
pub mod External
pub mod Redis
pub mod Auth
pub mod Users
pub mod Guards
pub mod Payments
pub mod Subscriptions
pub mod Chatting
pub mod Socket
pub mod Notifications
pub mod Content
